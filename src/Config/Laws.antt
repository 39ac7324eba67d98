-- ===== src/Config/Laws.antt =====
-- `load_config`: what it always gives.
use e2e_console_messenger.Base.{
  ℕ, ◌≡◌, ◌≢◌, refl, false, Option, none, some, [], ◌∷◌, Text, codes, is_empty, ltb, Bool-cases,
  inl, inr,
}
use e2e_console_messenger.Base.Decimal.{to_string, to_string-ne-nil}
use e2e_console_messenger.Store.{Os, Disk}
use e2e_console_messenger.Config.{
  CfgServer, CfgFile, override, override_port, with_server, config_file, configured, load_config,
}

abbrev pub IsFilled : Text → Type 0
IsFilled t = is_empty t ≡ false

override-IsFilled : (new : Option Text) (old : Text) → IsFilled old → IsFilled (override new old)
unfolding override
override-IsFilled none old h = h
override-IsFilled (some new) old h = elim (Bool-cases (is_empty new)) [
  | inl e ↦ rw e h
  | inr e ↦ rw e e
]

to_string-IsFilled : (n : ℕ) → IsFilled (to_string n)
to_string-IsFilled n = filled (to_string n) (to_string-ne-nil n)
  where
    filled : (t : Text) → t ≢ [] → IsFilled t
    filled [] h = absurd (h refl)
    filled (ch ∷ t) h = refl

override_port-IsFilled :
    (port : Option ℕ) (old : Text) → IsFilled old → IsFilled (override_port port old)
unfolding override_port
override_port-IsFilled none old h = h
override_port-IsFilled (some p) old h = elim (Bool-cases (ltb 0 p)) [
  | inl e ↦ rw e (to_string-IsFilled p)
  | inr e ↦ rw e h
]

abbrev AreFilled : Text × Text → Type 0
AreFilled r = IsFilled r.0 × IsFilled r.1

with_server-AreFilled : (s : Option CfgServer) → AreFilled (with_server s)
unfolding with_server
with_server-AreFilled none = (refl, refl)
with_server-AreFilled (some s) = (
  override-IsFilled s.host (codes "127.0.0.1") refl,
  override_port-IsFilled s.port (codes "1301") refl,
)

configured-AreFilled : (cfg : Option CfgFile) → AreFilled (configured cfg)
unfolding configured
configured-AreFilled none = with_server-AreFilled none
configured-AreFilled (some cfg) = with_server-AreFilled cfg.server

-- Whatever the files and the variables of the environment hold, neither the host nor the port of
-- the server is empty.
pub load_config-IsFilled :
    (parse : Text → Option CfgFile) (os : Os) (disk : Disk)
    → IsFilled (load_config parse os disk).0 × IsFilled (load_config parse os disk).1
unfolding load_config
load_config-IsFilled parse os disk =
    let (host, port) = configured-AreFilled (config_file parse disk) in
    (
      override-IsFilled (os.var (codes "MESH_HOST")) _ host,
      override-IsFilled (os.var (codes "MESH_PORT")) _ port,
    )
