-- ===== src/AppLog/Levels.antt =====
-- The level of a validated configuration, and what the handler with colours leaves out.
use red_team_coin.Base.{
  ◌≡◌, ◌⊎◌, refl, sym, ap, ◌∙◌, subst, if_intro, inl, inr, Bool, true, false, List, [], ◌∷◌, arith,
  if◌then◌else◌, Text, text, text_eq, text_eq_iff,
}
use red_team_coin.Config.{is_one_of, is_empty, is_bad_level}
use red_team_coin.AppLog.{
  Level, debug, info, warn, error, LogConfig, named_level, parse_level, Handler, LogRecord,
  with_attrs, with_group, handle_colored,
}

-- The level that a text stands for.
pub data Names : Text → Level → Type 0 where
  by_default : (t : Text) → t ≡ [] → Names t info
  debug_name : (t : Text) → t ≡ text "debug" → Names t debug
  info_name : (t : Text) → t ≡ text "info" → Names t info
  warn_name : (t : Text) → (t ≡ text "warn") ⊎ (t ≡ text "warning") → Names t warn
  error_name : (t : Text) → t ≡ text "error" → Names t error

is_empty-nil : (t : Text) → is_empty t ≡ true → t ≡ []
unfolding is_empty
is_empty-nil [] e = refl
is_empty-nil (c ∷ t) e = absurd (cc)

named_level-Names : (t : Text) → is_bad_level t ≡ false → Names t (named_level t)
unfolding named_level is_bad_level is_one_of
named_level-Names t good =
    let is = λ (name : Text). text_eq_iff t name in
    if_intro (Names t) (text_eq t (text "debug")) (λ e. debug_name t ((is (text "debug")).0 e))
      (λ n1.
        if_intro (Names t) (text_eq t (text "info")) (λ e. info_name t ((is (text "info")).0 e))
          (λ n2.
            if_intro (Names t) (text_eq t (text "warn"))
              (λ e. warn_name t (inl ((is (text "warn")).0 e)))
              (λ n3.
                if_intro (Names t) (text_eq t (text "warning"))
                  (λ e. warn_name t (inr ((is (text "warning")).0 e)))
                  (λ n4.
                    if_intro (Names t) (text_eq t (text "error"))
                      (λ e. error_name t ((is (text "error")).0 e))
                      (λ n5.
                        by_default t
                          (is_empty-nil t (ground (arith, n1, n2, n3, n4, n5, good))))))))

-- A level that Validate accepts, unless a flag overrides it, is the one that it names, or info where
-- it is empty, if strings.ToLower keeps it, as it does with these names: the default of parseLevel is
-- not taken for a text that names nothing. Verbose stands above quiet, and both above the level.
pub parse_level-Names :
    (lower : Text → Text) (cfg : LogConfig)
    → lower cfg.level ≡ cfg.level
    → is_bad_level cfg.level ≡ false
    → (cfg.verbose ≡ false → cfg.quiet ≡ false → Names cfg.level (parse_level lower cfg))
      × (cfg.verbose ≡ true → parse_level lower cfg ≡ debug)
      × (cfg.verbose ≡ false → cfg.quiet ≡ true → parse_level lower cfg ≡ error)
unfolding parse_level
parse_level-Names lower cfg low good =
    let quiet_or_level = λ (b : Bool). if b then error else named_level (lower cfg.level) in
    let or_debug = λ (b : Bool). if b then debug else quiet_or_level cfg.quiet in
    (
      λ loud plain.
          subst (Names cfg.level)
            (sym (ap or_debug loud ∙ ap quiet_or_level plain ∙ ap named_level low))
            (named_level-Names cfg.level good),
      λ loud. ap or_debug loud,
      λ loud plain. ap or_debug loud ∙ ap quiet_or_level plain,
    )

-- The handler with colours writes the same line with and without what With and WithGroup added to
-- the logger: these attributes go to the inner handler, which Handle does not ask.
pub handle_colored-attrs :
    (color : Text → Text → Text) (quote : Text → Text) (added : List (Text × Text)) (name : Text)
    (h : Handler) (r : LogRecord)
    → handle_colored color quote (with_attrs added (with_group name h)) r
      ≡ handle_colored color quote h r
unfolding handle_colored
handle_colored-attrs color quote added name h r = refl
