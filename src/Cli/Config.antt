-- ===== src/Cli/Config.antt =====
-- crates/cli/src/config.rs: the configuration, its defaults, and its reading. The TOML parser is an
-- argument: it gives the sections and fields that stand in the file, and `#[serde(default)]` on each
-- structure takes the others from `Default`.
use dotminecraft.Prelude.{ℕ, Bool, true, false, Option, none, some, List, [], Result, ok, err}
use dotminecraft.Core.Text.{Str, text}
use dotminecraft.Core.Consts.{default_keyid_len}

pub record NetworkCfg : Type 0 where
  pub bootstrap : List Str
  pub relays : List Str
  pub use_ipfs_dht : Bool
  pub mdns : Bool
  pub keyid_len : ℕ

pub record PublishCfg : Type 0 where
  pub target : Str
  pub vanity : Str
  pub max_conns : ℕ
  pub max_conn_rate : ℕ

pub record ConnectCfg : Type 0 where
  pub listen : Str

pub record Config : Type 0 where
  pub network : NetworkCfg
  pub publish : PublishCfg
  pub connect : ConnectCfg

abbrev pub default_network : NetworkCfg
default_network = record {
  bootstrap = [];
  relays = [];
  use_ipfs_dht = false;
  mdns = true;
  keyid_len = default_keyid_len;
}

abbrev pub default_publish : PublishCfg
default_publish = record {
  target = text "127.0.0.1:25565";
  vanity = [];
  max_conns = 32;
  max_conn_rate = 16;
}

abbrev pub default_connect : ConnectCfg
default_connect = record { listen = text "127.0.0.1:25566" }

abbrev pub defaults : Config
defaults = record {
  network = default_network;
  publish = default_publish;
  connect = default_connect;
}

-- What stands in a file.
pub record NetworkTable : Type 0 where
  pub bootstrap : Option (List Str)
  pub relays : Option (List Str)
  pub use_ipfs_dht : Option Bool
  pub mdns : Option Bool
  pub keyid_len : Option ℕ

pub record PublishTable : Type 0 where
  pub target : Option Str
  pub vanity : Option Str
  pub max_conns : Option ℕ
  pub max_conn_rate : Option ℕ

pub record ConnectTable : Type 0 where
  pub listen : Option Str

pub record Table : Type 0 where
  pub network : Option NetworkTable
  pub publish : Option PublishTable
  pub connect : Option ConnectTable

-- `unwrap_or`, and `#[serde(default)]` on a field.
abbrev pub unwrap_or : {A : Type 0} → A → Option A → A
unwrap_or a none = a
unwrap_or a (some b) = b

abbrev pub fill_network : Option NetworkTable → NetworkCfg
fill_network none = default_network
fill_network (some t) = record {
  bootstrap = unwrap_or default_network.bootstrap t.bootstrap;
  relays = unwrap_or default_network.relays t.relays;
  use_ipfs_dht = unwrap_or default_network.use_ipfs_dht t.use_ipfs_dht;
  mdns = unwrap_or default_network.mdns t.mdns;
  keyid_len = unwrap_or default_network.keyid_len t.keyid_len;
}

abbrev pub fill_publish : Option PublishTable → PublishCfg
fill_publish none = default_publish
fill_publish (some t) = record {
  target = unwrap_or default_publish.target t.target;
  vanity = unwrap_or default_publish.vanity t.vanity;
  max_conns = unwrap_or default_publish.max_conns t.max_conns;
  max_conn_rate = unwrap_or default_publish.max_conn_rate t.max_conn_rate;
}

abbrev pub fill_connect : Option ConnectTable → ConnectCfg
fill_connect none = default_connect
fill_connect (some t) = record { listen = unwrap_or default_connect.listen t.listen }

unfoldable pub fill : Table → Config
fill t = record {
  network = fill_network t.network;
  publish = fill_publish t.publish;
  connect = fill_connect t.connect;
}

-- What `read_to_string` gives.
pub data FileRead : Type 0 where
  contents : Str → FileRead
  not_found : FileRead
  unreadable : Str → FileRead

abbrev filled : Result Str Table → Result Str Config
filled (ok t) = ok (fill t)
filled (err e) = err (text "parsing")

-- `Config::load`
unfoldable pub load : (Str → Result Str Table) → FileRead → Result Str Config
unfolding fill
load from_str (contents s) = filled (from_str s)
load from_str not_found = ok defaults
load from_str (unreadable e) = err (text "reading")
