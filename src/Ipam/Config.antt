-- ===== src/Ipam/Config.antt =====
-- The configurations of the two plugins, cmd/ipam/types/types.go and cmd/coordinator/types/types.go,
-- behind the decoding of their JSON, which is a parameter.
use virtnet.Prelude.{
  Bool, List, [], ◌∷◌, Option, none, some, if◌then◌else◌, Text, bytes, contains, Outcome, ok, err,
  other, ◌>>=◌,
}

-- constant.DefaultUnixSocketPath
abbrev pub default_unix_socket_path : Text
default_unix_socket_path = bytes "/var/run/virtnet/virtnet.sock"

abbrev pub default_ipam_plugin_log_file_path : Text
default_ipam_plugin_log_file_path = bytes "/var/log/virtnet/virtnet-ipam.log"

abbrev pub default_coordinator_plugin_log_file_path : Text
default_coordinator_plugin_log_file_path = bytes "/var/log/virtnet/virtnet-coordinator.log"

-- The value, or the default if it is empty.
abbrev or_default : Text → Text → Text
or_default [] default = default
or_default (c ∷ s) default = c ∷ s

-- IPAMConfig with the version of NetConf
pub record NetConf : Type 0 where
  pub cni_version : Text
  pub default_subnet : Text
  pub log_level : Text
  pub log_output_file_path : Text
  pub ipam_unix_socket_path : Text

-- The loop over the versions that the vendored library supports.
unfoldable pub supported : List Text → NetConf → Outcome NetConf
unfolding contains
supported versions conf = if contains conf.cni_version versions then ok conf else err other

-- LoadNetConf
unfoldable pub load_net_conf : List Text → (Text → Option NetConf) → Text → Outcome NetConf
unfolding supported
load_net_conf versions unmarshal stdin = elim (unmarshal stdin) [
  | none ↦ err other
  | some conf ↦ supported versions (record conf {
    ipam_unix_socket_path = or_default conf.ipam_unix_socket_path default_unix_socket_path;
    log_level = or_default conf.log_level (bytes "info");
    log_output_file_path = or_default conf.log_output_file_path default_ipam_plugin_log_file_path;
  })
]

-- Config of the coordinator plugin; the type of a previous result is a parameter.
pub record Config {ℓ} (R : Type ℓ) : Type ℓ where
  pub prev_result : Option R
  pub ip_conflict : Bool
  pub log_level : Text
  pub log_output_file_path : Text
  pub coordinator_unix_socket_path : Text

-- ParseConfig; `parse_prev_result` is the vendored version.ParsePrevResult.
unfoldable pub parse_config {ℓ} :
    {R : Type ℓ}
    → (Text → Option (Config R))
    → (Config R → Outcome (Config R))
    → Text
    → Outcome (Config R)
parse_config unmarshal parse_prev_result stdin = elim (unmarshal stdin) [
  | none ↦ err other
  | some raw ↦ parse_prev_result raw >>= λ conf. ok (record conf {
    coordinator_unix_socket_path =
        or_default conf.coordinator_unix_socket_path default_unix_socket_path;
    log_level = or_default conf.log_level (bytes "debug");
    log_output_file_path =
        or_default conf.log_output_file_path default_coordinator_plugin_log_file_path;
  })
]
