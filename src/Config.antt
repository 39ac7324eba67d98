-- ===== src/Config.antt =====
-- `load_config` of rust_gui/src/main.rs: the server's address. `parse` is serde_json at `CfgFile`, whose
-- port is a `u16`.
pub mod Laws
use e2e_console_messenger.Base.{
  ℕ, Option, none, some, List, [], ◌∷◌, Text, codes, is_empty, ltb, if◌then◌else◌, ◌>>=◌,
}
use e2e_console_messenger.Base.Decimal.{to_string}
use e2e_console_messenger.Store.{Os, Disk, read_to_string, first_some}

pub record CfgServer : Type 0 where
  pub host : Option Text
  pub port : Option ℕ

pub record CfgFile : Type 0 where
  pub server : Option CfgServer

-- A value that is there and not empty takes the other's place.
unfoldable pub override : Option Text → Text → Text
override none old = old
override (some new) old = if is_empty new then old else new

unfoldable pub override_port : Option ℕ → Text → Text
override_port none old = old
override_port (some p) old = if ltb 0 p then to_string p else old

-- What the file says, over the defaults.
unfoldable pub with_server : Option CfgServer → Text × Text
unfolding override override_port
with_server none = (codes "127.0.0.1", codes "1301")
with_server (some s) = (override s.host (codes "127.0.0.1"), override_port s.port (codes "1301"))

-- The first of the two files that is read and parsed.
unfoldable pub config_file : (Text → Option CfgFile) → Disk → Option CfgFile
config_file parse disk =
    first_some (λ p. read_to_string disk p >>= parse)
      (codes "config.json" ∷ codes "../config.json" ∷ [])

-- What stands in the file that was found.
unfoldable pub configured : Option CfgFile → Text × Text
unfolding with_server
configured none = with_server none
configured (some cfg) = with_server cfg.server

unfoldable pub load_config : (Text → Option CfgFile) → Os → Disk → Text × Text
unfolding configured
load_config parse os disk =
    let (host, port) = configured (config_file parse disk) in
    (override (os.var (codes "MESH_HOST")) host, override (os.var (codes "MESH_PORT")) port)
