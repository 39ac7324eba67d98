-- ===== src/Store/FileName.antt =====
-- File names from the network, in store.rs: what `safe_file_name` lets through.
use mathlib.Core.List.{cons-ne-nil}
use e2e_console_messenger.Base.{
  ℕ, ◌≡◌, ◌≢◌, refl, ◌⊎◌, inl, inr, Bool, true, false, some, List, [], ◌∷◌, ◌++◌, Text, codes, last,
  last-append, retain, trim, split, split-Lacks, split-append, split-append_last, split-ne-nil,
  contains, text_eq_iff, Lacks, Bool-cases, arith, ◌>>=◌,
}
use e2e_console_messenger.Store.{
  components, file_name, or_default, ordinary, parts_of, refused, safe_file_name,
}

contains-false : (b : ℕ) (s : Text) → contains b s ≡ false → Lacks b s
unfolding contains
contains-false b [] h = tt
contains-false b (c ∷ s) h = ground (arith, contains-false b s)

Lacks-contains : (b : ℕ) (s : Text) → Lacks b s → contains b s ≡ false
unfolding contains
Lacks-contains b [] h = refl
Lacks-contains b (c ∷ s) h = ground (arith, Lacks-contains b s h.1)

-- A name for one entry of a directory.
pub record IsPlain (name : Text) : Type 0 where
  pub not_empty : name ≢ []
  pub not_dot : name ≢ codes "."
  pub not_dots : name ≢ codes ".."
  pub no_slash : Lacks b'/' name
  pub no_backslash : Lacks b'\\' name

refused-IsPlain : (name : Text) → refused name ≡ false → IsPlain name
unfolding refused
refused-IsPlain name h = record {
  not_empty = λ e. ground arith;
  not_dot = λ e. ground (arith, text_eq_iff name (codes "."));
  not_dots = λ e. ground (arith, text_eq_iff name (codes ".."));
  no_slash = contains-false b'/' name (ground arith);
  no_backslash = contains-false b'\\' name (ground arith);
}

IsPlain-refused : (name : Text) → IsPlain name → refused name ≡ false
unfolding refused
IsPlain-refused name p = ground (
  arith,
  p.not_empty,
  p.not_dot,
  p.not_dots,
  text_eq_iff name (codes "."),
  text_eq_iff name (codes ".."),
  Lacks-contains b'/' name p.no_slash,
  Lacks-contains b'\\' name p.no_backslash,
)

-- Whatever name arrives, the result is empty, which the caller refuses, or the name of one entry of
-- a directory: no separator in it, and neither "." nor "..".
pub safe_file_name-IsPlain : (raw : Text) → (safe_file_name raw ≡ []) ⊎ IsPlain (safe_file_name raw)
unfolding safe_file_name
safe_file_name-IsPlain raw =
    let name = trim (or_default (file_name (trim raw))) in
    elim (Bool-cases (refused name)) [
      | inl e ↦ inl (rw e)
      | inr e ↦ inr (rw e (refused-IsPlain name e))
    ]

ordinary-IsPlain : (name : Text) → IsPlain name → ordinary name ≡ true
unfolding ordinary
ordinary-IsPlain name p = ground (arith, p.not_empty, p.not_dot, text_eq_iff name (codes "."))

retain-append {ℓ} :
    {A : Type ℓ} (p : A → Bool) (xs : List A) (a : A)
    → p a ≡ true
    → retain p (xs ++ a ∷ []) ≡ retain p xs ++ a ∷ []
retain-append p [] a h = rw h
retain-append p (x ∷ xs) a h = ground (arith, retain-append p xs a h)

parts_of-append :
    (ps : List Text) (name : Text)
    → ps ≢ []
    → IsPlain name
    → parts_of (ps ++ name ∷ []) ≡ parts_of ps ++ name ∷ []
unfolding parts_of
parts_of-append [] name h p = absurd (h refl)
parts_of-append (q ∷ ps) name h p =
    rw (retain-append ordinary ps name (ordinary-IsPlain name p)) (ground arith)

-- A plain name below a directory is one component more.
pub components-append :
    (dir name : Text)
    → dir ≢ []
    → IsPlain name
    → components (dir ++ b'/' ∷ name) ≡ components dir ++ name ∷ []
unfolding components
components-append [] name h p = absurd (h refl)
components-append (a ∷ dir) name h p =
    rw (split-append_last b'/' (a ∷ dir) name p.no_slash)
      (parts_of-append (split b'/' (a ∷ dir)) name (split-ne-nil b'/' (a ∷ dir)) p)

last-components :
    (dir name : Text) → IsPlain name → last (components (dir ++ b'/' ∷ name)) ≡ some name
last-components [] name p =
    unfold components parts_of in
    rw (split-append b'/' [] name tt, split-Lacks b'/' name p.no_slash)
      (ground (arith, ordinary-IsPlain name p))
last-components (a ∷ dir) name p =
    rw (components-append (a ∷ dir) name (cons-ne-nil a dir) p)
      (last-append (components (a ∷ dir)) name)

file_name_of :
    (path name : Text)
    → IsPlain name
    → last (components path) ≡ some name
    → file_name path ≡ some name
unfolding file_name
file_name_of path name p e =
    rw (e, ◌>>=◌)
      (ground (
        arith,
        text_eq_iff name (codes "/"),
        text_eq_iff name (codes "."),
        text_eq_iff name (codes ".."),
        p.no_slash,
        p.not_dot,
        p.not_dots,
      ))

-- The directories that a peer puts in front of a plain name are dropped, "../" and "/" among them.
pub safe_file_name_strips :
    (dir name : Text)
    → IsPlain name
    → trim (dir ++ b'/' ∷ name) ≡ dir ++ b'/' ∷ name
    → trim name ≡ name
    → safe_file_name (dir ++ b'/' ∷ name) ≡ name
unfolding safe_file_name
safe_file_name_strips dir name p t u = rw (
  t,
  file_name_of (dir ++ b'/' ∷ name) name p (last-components dir name p),
  or_default,
  u,
  IsPlain-refused name p,
)
