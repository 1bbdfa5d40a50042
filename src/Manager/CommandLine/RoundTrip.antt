-- ===== src/Manager/CommandLine/RoundTrip.antt =====
-- Every setting of the flags of cmd/main.go can be written on its command line.
use yet_another_mysql_operat.Prelude.{◌≡◌, refl, Bool, true, false, List, [], ◌∷◌, ◌++◌, some}
use yet_another_mysql_operat.Prelude.Text.{Text, codes}
use yet_another_mysql_operat.Manager.CommandLine.{
  Flags, Flag, flag_name, metrics_bind_address, health_probe_bind_address, leader_elect,
  metrics_secure, webhook_cert_path, webhook_cert_name, webhook_cert_key, metrics_cert_path,
  metrics_cert_name, metrics_cert_key, enable_http2, OtherFlags, parsed, parse, parse_bool,
  set_flag, find_flag, read_argument, read_name, split_value,
}

abbrev pub show_bool : Bool → Text
show_bool true = codes "true"
show_bool false = codes "false"

-- `--name=value`
abbrev pub with_value : Flag → Text → Text
with_value g v = b'-' ∷ b'-' ∷ (flag_name g ++ b'=' ∷ v)

abbrev pub command_line : Flags → List Text
command_line f =
    with_value metrics_bind_address f.metrics_addr
    ∷ with_value health_probe_bind_address f.probe_addr
    ∷ with_value leader_elect (show_bool f.enable_leader_election)
    ∷ with_value metrics_secure (show_bool f.secure_metrics)
    ∷ with_value webhook_cert_path f.webhook_cert_path
    ∷ with_value webhook_cert_name f.webhook_cert_name
    ∷ with_value webhook_cert_key f.webhook_cert_key
    ∷ with_value metrics_cert_path f.metrics_cert_path
    ∷ with_value metrics_cert_name f.metrics_cert_name
    ∷ with_value metrics_cert_key f.metrics_cert_key
    ∷ with_value enable_http2 (show_bool f.enable_http2)
    ∷ []

-- `-name value`, for a flag that is not boolean
abbrev pub words : Flag → Text → List Text → List Text
words g v rest = (b'-' ∷ flag_name g) ∷ v ∷ rest

abbrev pub command_words : Flags → List Text
command_words f = words metrics_bind_address f.metrics_addr (
    words health_probe_bind_address f.probe_addr (
      with_value leader_elect (show_bool f.enable_leader_election)
      ∷ with_value metrics_secure (show_bool f.secure_metrics)
      ∷ words webhook_cert_path f.webhook_cert_path (
          words webhook_cert_name f.webhook_cert_name (
            words webhook_cert_key f.webhook_cert_key (
              words metrics_cert_path f.metrics_cert_path (
                words metrics_cert_name f.metrics_cert_name (
                  words metrics_cert_key f.metrics_cert_key
                    (with_value enable_http2 (show_bool f.enable_http2) ∷ []))))))))

parse_bool-show : (b : Bool) → parse_bool (show_bool b) ≡ some b
unfolding parse_bool codes
parse_bool-show true = refl
parse_bool-show false = refl

module _ (quote : Text → Text) (others : OtherFlags) where
  -- Whatever the flags were before, and whatever flags the logger has, the command line that gives
  -- every flag its value sets the flags to those values; so does the one that gives the texts in
  -- arguments of their own.
  pub parse-command_line :
      (flags before : Flags)
      → (parse quote others (command_line flags) before ≡ parsed flags)
        × (parse quote others (command_words flags) before ≡ parsed flags)
  unfolding parse read_argument read_name split_value find_flag set_flag flag_name codes
  parse-command_line flags before =
      let a = parse_bool-show flags.enable_leader_election in
      let b = parse_bool-show flags.secure_metrics in
      let c = parse_bool-show flags.enable_http2 in (rw (a, b, c) refl, rw (a, b, c) refl)
