-- ===== src/Manager/CommandLine.antt =====
-- The flags of cmd/main.go and their parsing by Go's package `flag`. The logger's flags, which
-- `opts.BindFlags` adds, and `strconv.Quote` (the verb `%q`) are parameters.
pub mod RoundTrip
use yet_another_mysql_operat.Prelude.{
  ℕ, Bool, true, false, not, ◌||◌, ◌&&◌, List, [], ◌∷◌, ◌++◌, Option, none, some, ◌==◌,
  if◌then◌else◌,
}
use yet_another_mysql_operat.Prelude.Text.{Text, codes, text_eq, is_empty}

-- The variables that the flags set.
pub record Flags : Type 0 where
  pub metrics_addr : Text
  pub probe_addr : Text
  pub enable_leader_election : Bool
  pub secure_metrics : Bool
  pub webhook_cert_path : Text
  pub webhook_cert_name : Text
  pub webhook_cert_key : Text
  pub metrics_cert_path : Text
  pub metrics_cert_name : Text
  pub metrics_cert_key : Text
  pub enable_http2 : Bool

-- Their values where the command line sets none.
unfoldable pub default_flags : Flags
default_flags = record {
  metrics_addr = codes "0";
  probe_addr = codes ":8081";
  enable_leader_election = false;
  secure_metrics = true;
  webhook_cert_path = [];
  webhook_cert_name = codes "tls.crt";
  webhook_cert_key = codes "tls.key";
  metrics_cert_path = [];
  metrics_cert_name = codes "tls.crt";
  metrics_cert_key = codes "tls.key";
  enable_http2 = false;
}

pub data Flag : Type 0 where
  metrics_bind_address health_probe_bind_address leader_elect metrics_secure : Flag
  webhook_cert_path webhook_cert_name webhook_cert_key : Flag
  metrics_cert_path metrics_cert_name metrics_cert_key enable_http2 : Flag

unfoldable pub flag_name : Flag → Text
unfolding codes
flag_name metrics_bind_address = codes "metrics-bind-address"
flag_name health_probe_bind_address = codes "health-probe-bind-address"
flag_name leader_elect = codes "leader-elect"
flag_name metrics_secure = codes "metrics-secure"
flag_name webhook_cert_path = codes "webhook-cert-path"
flag_name webhook_cert_name = codes "webhook-cert-name"
flag_name webhook_cert_key = codes "webhook-cert-key"
flag_name metrics_cert_path = codes "metrics-cert-path"
flag_name metrics_cert_name = codes "metrics-cert-name"
flag_name metrics_cert_key = codes "metrics-cert-key"
flag_name enable_http2 = codes "enable-http2"

abbrev pub all_flags : List Flag
all_flags =
    metrics_bind_address ∷ health_probe_bind_address ∷ leader_elect ∷ metrics_secure
    ∷ webhook_cert_path ∷ webhook_cert_name ∷ webhook_cert_key ∷ metrics_cert_path
    ∷ metrics_cert_name ∷ metrics_cert_key ∷ enable_http2 ∷ []

-- `flag.BoolVar` or `flag.StringVar`
abbrev pub is_bool_flag : Flag → Bool
is_bool_flag leader_elect = true
is_bool_flag metrics_secure = true
is_bool_flag enable_http2 = true
is_bool_flag _ = false

abbrev one_of : Text → List Text → Bool
one_of t [] = false
one_of t (u ∷ us) = text_eq t u || one_of t us

-- `strconv.ParseBool`
unfoldable pub parse_bool : Text → Option Bool
unfolding codes text_eq
parse_bool t =
    if one_of t
      (codes "1" ∷ codes "t" ∷ codes "T" ∷ codes "true" ∷ codes "TRUE" ∷ codes "True" ∷ [])
    then some true
    else if one_of t
        (codes "0" ∷ codes "f" ∷ codes "F" ∷ codes "false" ∷ codes "FALSE" ∷ codes "False" ∷ [])
    then some false
    else none

abbrev pub set_bool : Flag → Bool → Flags → Flags
set_bool leader_elect b f = record f { enable_leader_election = b }
set_bool metrics_secure b f = record f { secure_metrics = b }
set_bool enable_http2 b f = record f { enable_http2 = b }
set_bool _ b f = f

abbrev pub set_text : Flag → Text → Flags → Flags
set_text metrics_bind_address v f = record f { metrics_addr = v }
set_text health_probe_bind_address v f = record f { probe_addr = v }
set_text webhook_cert_path v f = record f { webhook_cert_path = v }
set_text webhook_cert_name v f = record f { webhook_cert_name = v }
set_text webhook_cert_key v f = record f { webhook_cert_key = v }
set_text metrics_cert_path v f = record f { metrics_cert_path = v }
set_text metrics_cert_name v f = record f { metrics_cert_name = v }
set_text metrics_cert_key v f = record f { metrics_cert_key = v }
set_text _ v f = f

-- How parsing ends: with the variables set, or by the exit of the program, with 0 after a request for
-- help and with 2 after an error.
pub data ParseEnd : Type 0 where
  parsed : Flags → ParseEnd
  exit_help : ParseEnd
  exit_error : Text → ParseEnd

abbrev pub and_then : ParseEnd → (Flags → ParseEnd) → ParseEnd
and_then (parsed f) next = next f
and_then exit_help next = exit_help
and_then (exit_error t) next = exit_error t

-- What an argument is: no flag, the mark `--`, a malformed flag, or a flag that may have a value.
pub data Argument : Type 0 where
  operand terminator malformed : Argument
  flag : Text → Option Text → Argument

-- The name up to the first `=` that does not stand at its start, and the value behind it.
abbrev pub cons_name : ℕ → Argument → Argument
cons_name c (flag name value) = flag (c ∷ name) value
cons_name c a = a

unfoldable pub split_value : Text → Argument
split_value [] = flag [] none
split_value (c ∷ s) = if c == b'=' then flag [] (some s) else cons_name c (split_value s)

unfoldable pub read_name : Text → Argument
unfolding split_value
read_name [] = malformed
read_name (c ∷ s) = if (c == b'-') || (c == b'=') then malformed else cons_name c (split_value s)

unfoldable pub read_argument : Text → Argument
unfolding read_name
read_argument [] = operand
read_argument (c ∷ []) = operand
read_argument (c ∷ d ∷ s) =
    if not (c == b'-')
    then operand
    else if not (d == b'-')
    then read_name (d ∷ s)
    else if is_empty s
    then terminator
    else read_name s

-- The logger's flags: whether one of that name is a boolean flag, and what is wrong with a value.
pub record OtherFlags : Type 0 where
  pub is_bool : Text → Option Bool
  pub complaint : Text → Text → Option Text

-- A flag of the program, a flag of the logger, or neither.
pub data Found : Type 0 where
  own : Flag → Found
  other : Bool → Found
  undefined : Found

module _ (quote : Text → Text) (others : OtherFlags) where
  abbrev or_other : Option Bool → Found
  or_other (some b) = other b
  or_other none = undefined

  abbrev find_in : Text → List Flag → Found
  find_in name [] = or_other (others.is_bool name)
  find_in name (g ∷ gs) = if text_eq name (flag_name g) then own g else find_in name gs

  unfoldable pub find_flag : Text → Found
  unfolding flag_name text_eq codes
  find_flag name = find_in name all_flags

  abbrev pub bool_or_error : Flag → Text → Option Bool → Flags → ParseEnd
  bool_or_error g v (some b) f = parsed (set_bool g b f)
  bool_or_error g v none f = exit_error (
      codes "invalid boolean value "
      ++ (quote v ++ (codes " for -" ++ (flag_name g ++ codes ": parse error"))))

  abbrev pub other_or_error : Text → Text → Option Text → Flags → ParseEnd
  other_or_error name v none f = parsed f
  other_or_error name v (some t) f =
      exit_error (
        codes "invalid value " ++ (quote v ++ (codes " for flag -" ++ (name ++ (codes ": " ++ t)))))

  unfoldable pub set_flag : Found → Text → Text → Flags → ParseEnd
  unfolding parse_bool flag_name
  set_flag (own g) name v f =
      if is_bool_flag g then bool_or_error g v (parse_bool v) f else parsed (set_text g v f)
  set_flag (other b) name v f = other_or_error name v (others.complaint name v) f
  set_flag undefined name v f =
      if text_eq name (codes "help") || text_eq name (codes "h")
      then exit_help
      else exit_error (codes "flag provided but not defined: -" ++ name)

  -- Does a flag without `=` take the next argument as its value?
  abbrev pub takes_next : Found → Bool
  takes_next (own g) = not (is_bool_flag g)
  takes_next (other b) = not b
  takes_next undefined = false

  -- `flag.Parse`
  unfoldable pub parse : List Text → Flags → ParseEnd
  unfolding read_argument find_flag set_flag
  parse [] f = parsed f
  parse (s ∷ []) f = elim (read_argument s) [
    | operand ↦ parsed f
    | terminator ↦ parsed f
    | malformed ↦ exit_error (codes "bad flag syntax: " ++ s)
    | flag name (some v) ↦ set_flag (find_flag name) name v f
    | flag name none ↦
        if takes_next (find_flag name)
        then exit_error (codes "flag needs an argument: -" ++ name)
        else set_flag (find_flag name) name (codes "true") f
  ]
  parse (s ∷ u ∷ args) f = elim (read_argument s) [
    | operand ↦ parsed f
    | terminator ↦ parsed f
    | malformed ↦ exit_error (codes "bad flag syntax: " ++ s)
    | flag name (some v) ↦ and_then (set_flag (find_flag name) name v f) (λ g. parse (u ∷ args) g)
    | flag name none ↦ elim (takes_next (find_flag name)) [
      | true ↦ and_then (set_flag (find_flag name) name u f) (λ g. parse args g)
      | false ↦ and_then (set_flag (find_flag name) name (codes "true") f) (λ g. parse (u ∷ args) g)
    ]
  ]
