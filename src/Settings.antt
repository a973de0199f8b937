-- ===== src/Settings.antt =====
-- config.py: the settings, and how they are read from a YAML file. The YAML parser is an input; the
-- value of a setting is whatever the file says, since nothing checks it.
pub mod Load
use grbl_proxy.Prelude.{ℕ, Bool, true, false, Option, none, some, ℤ, pos, if◌then◌else◌}
use grbl_proxy.Text.{Text, codes, same}
use grbl_proxy.Protocol.Report.{Decimal}

-- What yaml.safe_load returns. The keys of a mapping are texts.
mutual
  pub data Yaml : Type 0 where
    null : Yaml
    boolean : Bool → Yaml
    integer : ℤ → Yaml
    float : Decimal → Yaml
    string : Text → Yaml
    sequence : Items → Yaml
    mapping : Entries → Yaml

  pub data Items : Type 0 where
    end : Items
    item : Yaml → Items → Items

  pub data Entries : Type 0 where
    empty : Entries
    entry : Text → Yaml → Entries → Entries

-- data.get(key)
unfoldable pub get : Text → Entries → Option Yaml
unfolding same
get key empty = none
get key (entry k v d) = let rest = get key d in if same k key then some v else rest

-- result[key] = value
unfoldable pub put : Text → Yaml → Entries → Entries
unfolding same
put key value empty = entry key value empty
put key value (entry k v d) =
    let rest = put key value d in if same k key then entry k value d else entry k v rest

-- _deep_merge, and the value that a key gets
unfoldable mutual
  unfolding get put

  pub deep_merge : Entries → Entries → Entries
  deep_merge result empty = result
  deep_merge result (entry k v override) =
      deep_merge (put k (merged (get k result) v) result) override

  pub merged : Option Yaml → Yaml → Yaml
  merged (some (mapping b)) (mapping o) = mapping (deep_merge b o)
  merged _ value = value

pub record SerialConfig : Type 0 where
  pub port : Yaml
  pub baud : Yaml
  pub dtr : Yaml
  pub reconnect_interval : Yaml
  pub reset_on_connect : Yaml

pub record TcpConfig : Type 0 where
  pub host : Yaml
  pub port : Yaml

pub record WebConfig : Type 0 where
  pub host : Yaml
  pub port : Yaml

pub record AutoDetectConfig : Type 0 where
  pub enabled : Yaml
  pub line_burst : Yaml
  pub window_ms : Yaml
  pub motion_ratio : Yaml

pub record JobConfig : Type 0 where
  pub storage_dir : Yaml
  pub max_history : Yaml
  pub start_marker : Yaml
  pub end_marker : Yaml
  pub auto_detect : AutoDetectConfig

pub record MachineConfig : Type 0 where
  pub name : Yaml
  pub work_area : Yaml
  pub status_poll_hz : Yaml

pub record WebcamConfig : Type 0 where
  pub enabled : Yaml
  pub stream_url : Yaml

pub record Config : Type 0 where
  pub serial : SerialConfig
  pub tcp : TcpConfig
  pub web : WebConfig
  pub job : JobConfig
  pub machine : MachineConfig
  pub webcam : WebcamConfig

-- the value given for a field, or its default
abbrev pub or_default : Yaml → Option Yaml → Yaml
or_default d none = d
or_default d (some v) = v

-- a keyword argument of a dataclass
unfoldable pub field : Text → Yaml → Entries → Yaml
unfolding get
field key default d = or_default default (get key d)

abbrev whole : ℕ → Yaml
whole n = integer (pos n)

abbrev tenths : ℕ → Yaml
tenths n = float (record { minus = false; mantissa = n; scale = 1 })

unfoldable pub serial_config : Entries → SerialConfig
unfolding field
serial_config d = record {
  port = field (codes "port") (string (codes "auto")) d;
  baud = field (codes "baud") (whole 115_200) d;
  dtr = field (codes "dtr") (boolean false) d;
  reconnect_interval = field (codes "reconnect_interval") (tenths 50) d;
  reset_on_connect = field (codes "reset_on_connect") (boolean true) d;
}

unfoldable pub tcp_config : Entries → TcpConfig
unfolding field
tcp_config d = record {
  host = field (codes "host") (string (codes "0.0.0.0")) d;
  port = field (codes "port") (whole 8_899) d;
}

unfoldable pub web_config : Entries → WebConfig
unfolding field
web_config d = record {
  host = field (codes "host") (string (codes "0.0.0.0")) d;
  port = field (codes "port") (whole 8_080) d;
}

unfoldable pub auto_detect_config : Entries → AutoDetectConfig
unfolding field
auto_detect_config d = record {
  enabled = field (codes "enabled") (boolean false) d;
  line_burst = field (codes "line_burst") (whole 10) d;
  window_ms = field (codes "window_ms") (whole 500) d;
  motion_ratio = field (codes "motion_ratio") (tenths 8) d;
}

unfoldable pub job_config : AutoDetectConfig → Entries → JobConfig
unfolding field
job_config auto_detect d = record {
  storage_dir = field (codes "storage_dir") (string (codes "~/.grbl-proxy/jobs")) d;
  max_history = field (codes "max_history") (whole 20) d;
  start_marker = field (codes "start_marker") (string (codes "G4 P0.0")) d;
  end_marker = field (codes "end_marker") (string (codes "")) d;
  auto_detect = auto_detect;
}

unfoldable pub machine_config : Entries → MachineConfig
unfolding field
machine_config d = record {
  name = field (codes "name") (string (codes "GRBL Machine")) d;
  work_area = field (codes "work_area") (sequence (item (whole 400) (item (whole 415) end))) d;
  status_poll_hz = field (codes "status_poll_hz") (whole 4) d;
}

unfoldable pub webcam_config : Entries → WebcamConfig
unfolding field
webcam_config d = record {
  enabled = field (codes "enabled") (boolean false) d;
  stream_url = field (codes "stream_url") (string (codes "")) d;
}
