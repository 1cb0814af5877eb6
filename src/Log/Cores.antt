-- ===== src/Log/Cores.antt =====
-- The cores of a logger, and the configurations that they come from.
use net_hive.Prelude.{
  ◌≡◌, refl, ap, subst, ◌≢◌, ◌⊎◌, inl, inr, true, false, Option, none, some, List, [], ◌∷◌, map,
  if◌then◌else◌, bytes_eq, bytes_eq_refl, Bool-cases, List-cases,
}
use net_hive.Log.{
  CoreConfig, Zap, Opened, opened, failed, encoder, console_config, file_config, file_type,
  console_type, stdout, stderr, lower, fallback, Core, level_of, console_opened, console_core,
  file_opened, file_core, core_of, add_core, cores_of, or_fallback, new_core,
}

not_file : (bytes_eq console_type file_type ≡ false) × (bytes_eq [] file_type ≡ false)
unfolding bytes_eq
not_file = (refl, refl)

module _ (Z : Zap) where
  open Z use {Level, Sink, World, parse_level, zap_open, make_dir}

  -- The two standard streams can be opened.
  pub record StdStreams : Type 0 where
    pub out_opens : (w : World) → (s : Sink) × (w' : World) × (zap_open stdout w ≡ (opened s, w'))
    pub err_opens : (w : World) → (s : Sink) × (w' : World) × (zap_open stderr w ≡ (opened s, w'))

  -- A core that has the level of its configuration, and its encoder: that of a file, or that of the
  -- console for everything else.
  pub record Made (cfg : CoreConfig) (c : Core Z) : Type 0 where
    pub level : c.level ≡ level_of Z cfg.level
    pub encode :
        c.encode
        ≡ encoder cfg.encode_type (
            if bytes_eq cfg.output_type file_type
            then file_config cfg.encode_color
            else console_config cfg.encode_color)

  -- Cores in the order of their configurations, of which only those can be left out that are not
  -- for the console.
  pub data MadeFrom : List CoreConfig → List (Core Z) → Type 0 where
    nothing : MadeFrom [] []
    left_out :
        {cfg : CoreConfig} {cfgs : List CoreConfig} {cs : List (Core Z)}
        → cfg.output_type ≢ console_type
        → MadeFrom cfgs cs
        → MadeFrom (cfg ∷ cfgs) cs
    made :
        {cfg : CoreConfig} {cfgs : List CoreConfig} {c : Core Z} {cs : List (Core Z)}
        → Made cfg c
        → MadeFrom cfgs cs
        → MadeFrom (cfg ∷ cfgs) (c ∷ cs)

  module _ (S : StdStreams) where
    -- A configuration that is not for a file.
    console_core-some :
        (cfg : CoreConfig) (w : World)
        → bytes_eq cfg.output_type file_type ≡ false
        → (c : Core Z) × (w' : World) × (console_core Z cfg w ≡ some (some c, w')) × Made cfg c
    unfolding console_core console_opened
    console_core-some cfg w other =
        elim (Bool-cases (bytes_eq (map lower cfg.output_path) stderr)) [
          | inl err_out ↦
              let (s, w', opens) = S.err_opens w in
              (
                record {
                  encode = encoder cfg.encode_type (console_config cfg.encode_color);
                  writer = s;
                  level = level_of Z cfg.level;
                },
                w',
                rw (err_out, opens) refl,
                record { level = refl; encode = rw other refl },
              )
          | inr std_out ↦
              let (s, w', opens) = S.out_opens w in
              (
                record {
                  encode = encoder cfg.encode_type (console_config cfg.encode_color);
                  writer = s;
                  level = level_of Z cfg.level;
                },
                w',
                rw (std_out, opens) refl,
                record { level = refl; encode = rw other refl },
              )
        ]

    file_opened-cases :
        (cfg : CoreConfig) (out : Opened Sink × World)
        → bytes_eq cfg.output_type file_type ≡ true
        → let r =
            file_opened Z
              (encoder cfg.encode_type (file_config cfg.encode_color))
              (level_of Z cfg.level)
              out in
          (r.0 ≡ none) ⊎ ((c : Core Z) × (r.0 ≡ some c) × Made cfg c)
    unfolding file_opened
    file_opened-cases cfg (opened s, w) is_file =
        inr (_, refl, record { level = refl; encode = rw is_file refl })
    file_opened-cases cfg (failed closes, w) is_file = inl refl

    -- What the `switch` makes of a configuration.
    core_of_lem :
        (cfg : CoreConfig) (w : World)
        → (core : Option (Core Z)) × (w' : World) × (core_of Z cfg w ≡ some (core, w'))
          × (((core ≡ none) × (cfg.output_type ≢ console_type))
              ⊎ ((c : Core Z) × (core ≡ some c) × Made cfg c))
    unfolding core_of file_core
    core_of_lem cfg w = elim (Bool-cases (bytes_eq cfg.output_type file_type)) [
      | inl is_file ↦
          let r = file_core Z cfg w in
          (
            r.0,
            r.1,
            rw is_file refl,
            elim (file_opened-cases cfg (zap_open cfg.output_path (make_dir cfg.output_path 384 w))
                is_file) [
                  | inl no_core ↦
                      inl (no_core, λ e. cc (is_file, ap (λ t. bytes_eq t file_type) e, not_file.0))
                  | inr some_core ↦ inr some_core
                ],
          )
      | inr other ↦ elim (Bool-cases (bytes_eq cfg.output_type console_type)) [
        | inl is_console ↦
            let (c, w', got, is) = console_core-some cfg w other in
            (some c, w', rw (other, is_console) got, inr (c, refl, is))
        | inr neither ↦ (
          none,
          w,
          rw (other, neither) refl,
          inl (
            refl,
            λ e. cc (neither, ap (λ t. bytes_eq t console_type) e, bytes_eq_refl console_type),
          ),
        )
      ]
    ]

    cores_of_lem :
        (cfgs : List CoreConfig) (w : World)
        → (cs : List (Core Z)) × (w' : World) × (cores_of Z cfgs w ≡ some (cs, w'))
          × MadeFrom cfgs cs
    unfolding cores_of add_core
    cores_of_lem [] w = ([], w, refl, nothing)
    cores_of_lem (cfg ∷ cfgs) w =
        let (core, w1, got, kind) = core_of_lem cfg w in
        let (cs, w2, rest, from) = cores_of_lem cfgs w1 in
        elim kind [
          | inl (no_core, other) ↦ (
            cs,
            w2,
            rw (got, rest) (ap (λ o. some (add_core Z o cs, w2)) no_core),
            left_out other from,
          )
          | inr (c, some_core, is) ↦ (
            c ∷ cs,
            w2,
            rw (got, rest) (ap (λ o. some (add_core Z o cs, w2)) some_core),
            made is from,
          )
        ]

    -- `NewCore` returns, without a panic, if the standard streams can be opened, and its cores are
    -- never `nil` and at least one: either those of the configurations, in their order, each with
    -- the level and the encoder of its configuration, where all configurations for the console have
    -- theirs; or, if none has one, that of the fallback for the console.
    pub new_core_lem :
        (cfgs : List CoreConfig) (w : World)
        → (cs : List (Core Z)) × (w' : World) × (new_core Z cfgs w ≡ some (map some cs, w'))
          × (cs ≢ [])
          × (MadeFrom cfgs cs ⊎ (MadeFrom cfgs [] × MadeFrom (fallback ∷ []) cs))
    unfolding new_core or_fallback
    new_core_lem cfgs w =
        let (cs, w1, got, from) = cores_of_lem cfgs w in
        elim (List-cases cs) [
          | inl no_core ↦
              let (c, w2, console, is) = console_core-some fallback w1 not_file.1 in
              (
                c ∷ [],
                w2,
                rw (got, no_core) (rw console refl),
                (λ e. cc (e)),
                inr (subst (MadeFrom cfgs) no_core from, made is nothing),
              )
          | inr (c, rest, some_core) ↦ (
            c ∷ rest,
            w1,
            rw (got, some_core) refl,
            (λ e. cc (e)),
            inl (subst (MadeFrom cfgs) some_core from),
          )
        ]
