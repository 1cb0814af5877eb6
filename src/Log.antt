-- ===== src/Log.antt =====
-- pkgs/log: which loggers the program makes. zap is outside, and so are the files.
pub mod Cores
mod Tests
use net_hive.Prelude.{
  ℕ, ◌+◌, Bool, true, ◌&&◌, Option, none, some, List, [], ◌∷◌, ◌++◌, map, leb, if◌then◌else◌, Bytes,
  bytes_eq, ◌>>=◌,
}

-- `CoreConfig`
pub record CoreConfig : Type 0 where
  pub output_type : Bytes
  pub output_path : Bytes
  pub level : Bytes
  pub encode_type : Bytes
  pub encode_color : Bool

-- The encoders of zap's configuration that the program names.
pub data LevelEncoder : Type 0 where
  capital capital_color : LevelEncoder

pub data TimeEncoder : Type 0 where
  rfc3339 : TimeEncoder

pub data DurationEncoder : Type 0 where
  string_duration : DurationEncoder

pub data CallerEncoder : Type 0 where
  short_caller : CallerEncoder

-- `zapcore.EncoderConfig`. Its line ending is the default one.
pub record EncoderConfig : Type 0 where
  pub time_key : Bytes
  pub level_key : Bytes
  pub name_key : Bytes
  pub caller_key : Bytes
  pub function_key : Bytes
  pub message_key : Bytes
  pub stacktrace_key : Bytes
  pub encode_time : TimeEncoder
  pub encode_level : LevelEncoder
  pub encode_duration : DurationEncoder
  pub encode_caller : Option CallerEncoder
  pub console_separator : Bytes

pub data Encoder : Type 0 where
  console json : EncoderConfig → Encoder

-- What `zap.Open` answers: a sink, or an error with a function to call or with `nil` in its place.
pub data Opened (S : Type 0) : Type 0 where
  opened : S → Opened S
  failed : Bool → Opened S

-- What the code takes from zap and the operating system. `make_dir` is `os.MkdirAll` of the
-- directory of a path, with the permissions.
pub record Zap : Type 1 where
  pub Level : Type 0
  pub Sink : Type 0
  pub World : Type 0
  pub info : Level
  pub parse_level : Bytes → Option Level
  pub zap_open : Bytes → World → Opened Sink × World
  pub make_dir : Bytes → ℕ → World → World

-- "file"
abbrev pub file_type : Bytes
file_type = b'f' ∷ b'i' ∷ b'l' ∷ b'e' ∷ []

-- "console"
abbrev pub console_type : Bytes
console_type = b'c' ∷ b'o' ∷ b'n' ∷ b's' ∷ b'o' ∷ b'l' ∷ b'e' ∷ []

-- "json"
abbrev pub json_type : Bytes
json_type = b'j' ∷ b's' ∷ b'o' ∷ b'n' ∷ []

-- "stdout"
abbrev pub stdout : Bytes
stdout = b's' ∷ b't' ∷ b'd' ∷ b'o' ∷ b'u' ∷ b't' ∷ []

-- "stderr"
abbrev pub stderr : Bytes
stderr = b's' ∷ b't' ∷ b'd' ∷ b'e' ∷ b'r' ∷ b'r' ∷ []

-- `strings.ToLower` at a byte: no character beyond ASCII has its lower case in "stderr".
unfoldable pub lower : ℕ → ℕ
lower c = if leb b'A' c && leb c b'Z' then c + 32 else c

-- The configuration of the encoder in `ConsoleCore`.
unfoldable pub console_config : Bool → EncoderConfig
console_config color = record {
  time_key = b'T' ∷ [];
  level_key = b'L' ∷ [];
  name_key = b'N' ∷ [];
  caller_key = b'C' ∷ [];
  function_key = [];
  message_key = b'M' ∷ [];
  stacktrace_key = b'S' ∷ [];
  encode_time = rfc3339;
  encode_level = if color then capital_color else capital;
  encode_duration = string_duration;
  encode_caller = some short_caller;
  console_separator = 9 ∷ [];
}

-- That in `FileCore`, which leaves out the caller.
unfoldable pub file_config : Bool → EncoderConfig
file_config color = record (console_config color) { caller_key = []; encode_caller = none }

unfoldable pub encoder : Bytes → EncoderConfig → Encoder
encoder type config = if bytes_eq type json_type then json config else console config

-- `CoreConfig{EncodeColor: true}`
abbrev pub fallback : CoreConfig
fallback = record {
  output_type = [];
  output_path = [];
  level = [];
  encode_type = [];
  encode_color = true;
}

-- `SetOutputTypes`: the variable `coreConfigs` grows with each call.
unfoldable pub set_output_types : List CoreConfig → List CoreConfig → List CoreConfig
set_output_types core_configs configs = core_configs ++ configs

module _ (Z : Zap) where
  open Z use {Level, Sink, World, parse_level, zap_open, make_dir}

  -- The arguments of `zapcore.NewCore`.
  pub record Core : Type 0 where
    pub encode : Encoder
    pub writer : Sink
    pub level : Level

  -- `ParseAtomicLevel`, or the level for information.
  unfoldable pub level_of : Bytes → Level
  level_of text = elim (parse_level text) [ none ↦ Z.info | some l ↦ l ]

  -- After `zap.Open` in `ConsoleCore`: it calls `closeFn` on an error, which panics (`none`) if
  -- that is `nil`. Otherwise the core, or `nil`.
  unfoldable pub console_opened :
      Encoder → Level → Opened Sink × World → Option (Option Core × World)
  console_opened enc l (opened s, w) =
      some (some (record { encode = enc; writer = s; level = l }), w)
  console_opened enc l (failed closes, w) = if closes then some (none, w) else none

  unfoldable pub console_core : CoreConfig → World → Option (Option Core × World)
  console_core cfg w =
      console_opened (encoder cfg.encode_type (console_config cfg.encode_color))
        (level_of cfg.level)
        (zap_open (if bytes_eq (map lower cfg.output_path) stderr then stderr else stdout) w)

  unfoldable pub file_opened : Encoder → Level → Opened Sink × World → Option Core × World
  file_opened enc l (opened s, w) = (some (record { encode = enc; writer = s; level = l }), w)
  file_opened enc l (failed closes, w) = (none, w)

  -- `FileCore`. The permissions are 0600.
  unfoldable pub file_core : CoreConfig → World → Option Core × World
  file_core cfg w =
      file_opened (encoder cfg.encode_type (file_config cfg.encode_color)) (level_of cfg.level)
        (zap_open cfg.output_path (make_dir cfg.output_path 384 w))

  -- The `switch` of `NewCore`.
  unfoldable pub core_of : CoreConfig → World → Option (Option Core × World)
  core_of cfg w =
      if bytes_eq cfg.output_type file_type
      then some (file_core cfg w)
      else if bytes_eq cfg.output_type console_type
      then console_core cfg w
      else some (none, w)

  unfoldable pub add_core : Option Core → List Core → List Core
  add_core none cores = cores
  add_core (some c) cores = c ∷ cores

  -- The loop of `NewCore`.
  unfoldable pub cores_of : List CoreConfig → World → Option (List Core × World)
  cores_of [] w = some ([], w)
  cores_of (cfg ∷ cfgs) w = do
    (core, w1) ← core_of cfg w
    (cores, w2) ← cores_of cfgs w1
    some (add_core core cores, w2)

  -- What goes to `NewTee`: without a core, one for the console, which may be `nil`.
  unfoldable pub or_fallback : List Core × World → Option (List (Option Core) × World)
  or_fallback ([], w) = do (core, w1) ← console_core fallback w; some (core ∷ [], w1)
  or_fallback (c ∷ cs, w) = some (map some (c ∷ cs), w)

  -- `NewCore`
  unfoldable pub new_core : List CoreConfig → World → Option (List (Option Core) × World)
  new_core core_configs w = do out ← cores_of core_configs w; or_fallback out

  -- `Logger`, and `New` with the caller's place added and a name.
  pub record Logger : Type 0 where
    pub cores : List (Option Core)
    pub add_caller : Bool
    pub name : Bytes

  unfoldable pub new : Bytes → List CoreConfig → World → Option (Logger × World)
  new name core_configs w = do
    (cores, w1) ← new_core core_configs w
    some (record { cores = cores; add_caller = true; name = name }, w1)
