-- ===== src/Cli/Settings.antt =====
-- parse_options on command lines that are written from settings: which setting wins.
use spraybus.Prelude.{
  ℕ, ◌≡◌, ◌≤◌, refl, ap, ◌∙◌, false, List, [], ◌∷◌, ◌++◌, Option, none, some, All, arith, bytes_eq,
  if◌then◌else◌,
}
use spraybus.Exec.{Result, ok, ◌>>=◌}
use spraybus.Text.{text, to_string}
use spraybus.Common.{Environment, get_env_or}
use spraybus.Cli.{
  default_options, Flag, classify, Scan, left, with_host, with_port, with_command, scan,
  finish_scan, parse_options, parse_port,
}
use spraybus.Cli.Port.{parse_port-to_string}

-- `--flag value`, `-f value` and `--flag=value`.
pub data Spelling : Type 0 where
  long short joined : Spelling

pub data Setting : Type 0 where
  host_setting : Spelling → List ℕ → Setting
  port_setting : Spelling → ℕ → Setting

abbrev written_value : Spelling → List ℕ → List ℕ → List ℕ → List (List ℕ)
written_value long long_name short_name value = long_name ∷ value ∷ []
written_value short long_name short_name value = short_name ∷ value ∷ []
written_value joined long_name short_name value = ((long_name ++ text "=") ++ value) ∷ []

abbrev written_setting : Setting → List (List ℕ)
written_setting (host_setting s value) = written_value s (text "--host") (text "-H") value
written_setting (port_setting s n) = written_value s (text "--port") (text "-p") (to_string n)

abbrev pub written : List Setting → List (List ℕ)
written [] = []
written (s ∷ ss) = written_setting s ++ written ss

abbrev pub IsSetting : Setting → Type 0
IsSetting (host_setting s value) = Unit {0}
IsSetting (port_setting s n) = n ≤ 65535

abbrev applied : Scan → Setting → Scan
applied s (host_setting spelling value) = with_host s value
applied s (port_setting spelling n) = with_port s n

abbrev applied_all : Scan → List Setting → Scan
applied_all s [] = s
applied_all s (x ∷ xs) = applied_all (applied s x) xs

abbrev pub or_else : {A : Type 0} → Option A → A → A
or_else none a = a
or_else (some b) a = b

-- The last host and the last port that are set.
abbrev pub last_host : List Setting → Option (List ℕ)
last_host [] = none
last_host (host_setting s value ∷ ss) = some (or_else (last_host ss) value)
last_host (port_setting s n ∷ ss) = last_host ss

abbrev pub last_port : List Setting → Option ℕ
last_port [] = none
last_port (host_setting s value ∷ ss) = last_port ss
last_port (port_setting s n ∷ ss) = some (or_else (last_port ss) n)

scan_setting :
    (s : Scan) (x : Setting) (rest : List (List ℕ))
    → IsSetting x
    → scan s (written_setting x ++ rest) ≡ scan (applied s x) rest
unfolding scan classify bytes_eq
scan_setting s (host_setting long value) rest h = refl
scan_setting s (host_setting short value) rest h = refl
scan_setting s (host_setting joined value) [] h = refl
scan_setting s (host_setting joined value) (arg ∷ rest) h = refl
scan_setting s (port_setting long n) rest h = rw (parse_port-to_string n h) refl
scan_setting s (port_setting short n) rest h = rw (parse_port-to_string n h) refl
scan_setting s (port_setting joined n) [] h = rw (parse_port-to_string n h) refl
scan_setting s (port_setting joined n) (arg ∷ rest) h = rw (parse_port-to_string n h) refl

append_later :
    (x : Setting) (ys zs : List (List ℕ))
    → (written_setting x ++ ys) ++ zs ≡ written_setting x ++ (ys ++ zs)
append_later (host_setting long value) ys zs = refl
append_later (host_setting short value) ys zs = refl
append_later (host_setting joined value) ys zs = refl
append_later (port_setting long value) ys zs = refl
append_later (port_setting short value) ys zs = refl
append_later (port_setting joined value) ys zs = refl

scan_settings :
    (s : Scan) (xs : List Setting) (rest : List (List ℕ))
    → All IsSetting xs
    → scan s (written xs ++ rest) ≡ scan (applied_all s xs) rest
scan_settings s [] rest h = refl
scan_settings s (x ∷ xs) rest h =
    ap (scan s) (append_later x (written xs) rest)
    ∙ scan_setting s x (written xs ++ rest) h.0
    ∙ scan_settings (applied s x) xs rest h.1

scan_command :
    (s : Scan) (command : List ℕ) (args : List (List ℕ))
    → classify command ≡ Flag.command
    → scan s (command ∷ args) ≡ ok (left (with_command s command) args)
unfolding scan
scan_command s command [] h = ground (arith, h)
scan_command s command (arg ∷ args) h = ground (arith, h)

module _ (getenv : Environment) where
  -- The host and the port that a scan ends with.
  abbrev scanned_host : Scan → List ℕ
  scanned_host s =
      if s.host_from_args
      then s.options.host
      else get_env_or getenv (text "SPRAYBUS_HOST") s.options.host

  abbrev scanned_port : Scan → Result ℕ
  scanned_port s =
      if s.port_from_args
      then ok s.options.port
      else parse_port (get_env_or getenv (text "SPRAYBUS_PORT") (text "6767"))

  abbrev pub maybe_port : Option ℕ → Result ℕ → Result ℕ
  maybe_port none r = r
  maybe_port (some n) r = ok n

  host-applied_all :
      (s : Scan) (xs : List Setting)
      → scanned_host (applied_all s xs) ≡ or_else (last_host xs) (scanned_host s)
  host-applied_all s [] = refl
  host-applied_all s (host_setting spelling value ∷ xs) = host-applied_all (with_host s value) xs
  host-applied_all s (port_setting spelling n ∷ xs) = host-applied_all (with_port s n) xs

  maybe_port-ok : (o : Option ℕ) (n : ℕ) → maybe_port o (ok n) ≡ ok (or_else o n)
  maybe_port-ok none n = refl
  maybe_port-ok (some m) n = refl

  port-applied_all :
      (s : Scan) (xs : List Setting)
      → scanned_port (applied_all s xs) ≡ maybe_port (last_port xs) (scanned_port s)
  port-applied_all s [] = refl
  port-applied_all s (host_setting spelling value ∷ xs) = port-applied_all (with_host s value) xs
  port-applied_all s (port_setting spelling n ∷ xs) =
      port-applied_all (with_port s n) xs ∙ maybe_port-ok (last_port xs) n

  -- Settings in any spelling and order, with ports up to 65535, then a command that is no flag,
  -- with its arguments. The last --host wins over SPRAYBUS_HOST, and that over localhost; the last
  -- --port wins over SPRAYBUS_PORT, and that over 6767; SPRAYBUS_PORT is not looked at, and cannot
  -- be refused, if a port is set.
  pub parse_options-written :
      (settings : List Setting) (c : ℕ) (command : List ℕ) (args : List (List ℕ))
      → All IsSetting settings
      → classify (c ∷ command) ≡ Flag.command
      → parse_options getenv (written settings ++ (c ∷ command) ∷ args) ≡ (
          maybe_port
            (last_port settings)
            (parse_port (get_env_or getenv (text "SPRAYBUS_PORT") (text "6767")))
          >>= λ n. ok (record {
            host =
                or_else
                  (last_host settings)
                  (get_env_or getenv (text "SPRAYBUS_HOST") (text "localhost"));
            port = n;
            command = c ∷ command;
            args = args;
          }))
  unfolding parse_options
  parse_options-written settings c command args h is_command =
      let start : Scan = record {
        options = default_options;
        host_from_args = false;
        port_from_args = false;
      } in
      let end = applied_all start settings in
      ap (λ r. r >>= finish_scan getenv)
        (scan_settings start settings ((c ∷ command) ∷ args) h
          ∙ scan_command end (c ∷ command) args is_command)
      ∙ λ i.
          (port-applied_all start settings i >>= λ n. ok (record {
            host = host-applied_all start settings i;
            port = n;
            command = c ∷ command;
            args = args;
          }))
