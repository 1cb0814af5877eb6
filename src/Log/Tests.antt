-- ===== src/Log/Tests.antt =====
-- A logger for a file that cannot be opened and for the console.
use net_hive.Prelude.{
  ℕ, ◌≡◌, refl, ◌≢◌, ◌⊎◌, false, none, some, List, [], ◌∷◌, map, ltb, if◌then◌else◌, Bytes, length,
}
use net_hive.Log.{
  CoreConfig, Zap, opened, failed, Core, new_core, console_type, file_type, json_type, fallback,
}
use net_hive.Log.Cores.{StdStreams, MadeFrom, new_core_lem}

-- Only the standard streams can be opened.
abbrev zap : Zap
zap = record {
  Level = ℕ;
  Sink = Bytes;
  World = List Bytes;
  info = 0;
  parse_level = λ t. none;
  zap_open = λ p w. if ltb 5 (length p) then (opened p, w) else (failed false, w);
  make_dir = λ p mode w. p ∷ w;
}

std : StdStreams zap
std = record { out_opens = λ w. (_, w, refl); err_opens = λ w. (_, w, refl) }

abbrev configs : List CoreConfig
configs =
    record {
      output_type = file_type;
      output_path = b'a' ∷ [];
      level = [];
      encode_type = json_type;
      encode_color = false;
    }
    ∷ record fallback { output_type = console_type }
    ∷ []

new_core_lem_example :
    (cs : List (Core zap)) × (w' : List Bytes) × (new_core zap configs [] ≡ some (map some cs, w'))
    × (cs ≢ [])
    × (MadeFrom zap configs cs ⊎ (MadeFrom zap configs [] × MadeFrom zap (fallback ∷ []) cs))
new_core_lem_example = new_core_lem zap std configs []
