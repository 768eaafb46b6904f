-- ===== src/Commands/Plain.antt =====
-- The forms that are no score commands give no score command (osubot-core/src/commands/mod.rs).
use osubot_rs.Prelude.{ℕ, [], ◌∷◌, Option, ℤ, arith, Holds, Holds->>=, Holds-any, or_else}
use osubot_rs.Text.{Text, codes, trim, strip_prefix}
use osubot_rs.Types.{
  Command, pass, recent, best, today_best, score_on_beatmap, beatmap_preview, beatmap_audio,
}
use osubot_rs.Commands.Chain.{
  tilde_form, where_qq_form, where_form, look_up_form, bind_form, highlight_form, mode_form,
  profile_form, simple_forms, ml_form, ml_rest,
}
use osubot_rs.Commands.MatchListen.{ml_action, parse_ml_skip_suffix, parse_ml_subcommand}

-- No score command.
abbrev pub IsPlain : Command → Type 0
IsPlain (pass a) = ⊥
IsPlain (recent a) = ⊥
IsPlain (best a) = ⊥
IsPlain (today_best a) = ⊥
IsPlain (score_on_beatmap a) = ⊥
IsPlain (beatmap_preview a) = ⊥
IsPlain (beatmap_audio a) = ⊥
IsPlain _ = Unit

tilde_form-IsPlain : (msg : Text) → Holds (Holds IsPlain) (tilde_form msg)
unfolding tilde_form
tilde_form-IsPlain msg = ground arith

where_qq_form-IsPlain : (msg : Text) → Holds (Holds IsPlain) (where_qq_form msg)
unfolding where_qq_form
where_qq_form-IsPlain msg = ground arith

where_form-IsPlain : (msg : Text) → Holds (Holds IsPlain) (where_form msg)
unfolding where_form
where_form-IsPlain msg = ground arith

look_up_form-IsPlain : (msg : Text) (q : Option ℤ) → Holds (Holds IsPlain) (look_up_form msg q)
unfolding look_up_form
look_up_form-IsPlain msg q = ground arith

bind_form-IsPlain : (msg : Text) → Holds (Holds IsPlain) (bind_form msg)
unfolding bind_form
bind_form-IsPlain msg = ground arith

highlight_form-IsPlain : (msg : Text) → Holds (Holds IsPlain) (highlight_form msg)
unfolding highlight_form
highlight_form-IsPlain msg = ground arith

mode_form-IsPlain : (msg : Text) → Holds (Holds IsPlain) (mode_form msg)
unfolding mode_form
mode_form-IsPlain msg = ground arith

profile_form-IsPlain : (msg : Text) (q : Option ℤ) → Holds (Holds IsPlain) (profile_form msg q)
unfolding profile_form
profile_form-IsPlain msg q = ground arith

pub simple_forms-IsPlain : (msg : Text) (q : Option ℤ) → Holds (Holds IsPlain) (simple_forms msg q)
unfolding simple_forms
simple_forms-IsPlain msg q = ground (
  arith,
  tilde_form-IsPlain msg,
  where_qq_form-IsPlain msg,
  where_form-IsPlain msg,
  look_up_form-IsPlain msg q,
  bind_form-IsPlain msg,
  highlight_form-IsPlain msg,
  mode_form-IsPlain msg,
  profile_form-IsPlain msg q,
)

ml_action-IsPlain : (rest : Text) (n : ℕ) → Holds IsPlain (ml_action rest n)
unfolding ml_action
ml_action-IsPlain rest n = ground arith

parse_ml_subcommand-IsPlain : (rest : Text) → Holds IsPlain (parse_ml_subcommand rest)
unfolding parse_ml_subcommand
parse_ml_subcommand-IsPlain rest =
    Holds->>= (λ _. Unit {0}) IsPlain (parse_ml_skip_suffix rest) _ (Holds-any _)
      (λ p _. ml_action-IsPlain (trim p.0) p.1)

ml_rest-IsPlain : (rest : Text) → Holds IsPlain (ml_rest rest)
unfolding ml_rest
ml_rest-IsPlain [] = tt
ml_rest-IsPlain (c ∷ rest) = parse_ml_subcommand-IsPlain (c ∷ rest)

pub ml_form-IsPlain : (msg : Text) → Holds IsPlain (ml_form msg)
unfolding ml_form
ml_form-IsPlain msg =
    Holds->>= (λ _. Unit {0}) IsPlain
      (or_else (strip_prefix (codes "!ml") msg) (strip_prefix (codes "!li") msg)) _ (Holds-any _)
      (λ rest _. ml_rest-IsPlain (trim rest))
