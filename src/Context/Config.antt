-- ===== src/Context/Config.antt =====
-- internal/agent/context.go: `CompactionConfig` (of agent.go) and `defaultCompactionConfig`.
use notch.Prelude.{◌≡◌, refl, Bool, true, false, not, ◌&&◌, if◌then◌else◌, arith}
use notch.Prelude.Int.{ℤ, pos, negsuc, ltb_ℤ}

pub record CompactionConfig : Type 0 where
  pub enabled : Bool
  pub context_window : ℤ
  pub reserve_tokens : ℤ
  pub keep_recent_tokens : ℤ

abbrev pub is_zero : ℤ → Bool
is_zero (pos n) = not (ltb_ℤ (pos 0) (pos n))
is_zero (negsuc n) = false

unfoldable pub is_zero_config : CompactionConfig → Bool
is_zero_config c =
    not c.enabled
    && is_zero c.context_window
    && is_zero c.reserve_tokens
    && is_zero c.keep_recent_tokens

abbrev pub or_default : ℤ → ℤ → ℤ
or_default x default = if ltb_ℤ (pos 0) x then x else default

unfoldable pub default_compaction_config : CompactionConfig → CompactionConfig
unfolding is_zero_config
default_compaction_config c = record {
  enabled = if is_zero_config c then true else c.enabled;
  context_window = or_default c.context_window (pos 128000);
  reserve_tokens = or_default c.reserve_tokens (pos 16384);
  keep_recent_tokens = or_default c.keep_recent_tokens (pos 20000);
}

or_default_twice :
    (x d : ℤ) → ltb_ℤ (pos 0) d ≡ true → or_default (or_default x d) d ≡ or_default x d
or_default_twice x d h = ground arith

or_default_positive : (x d : ℤ) → ltb_ℤ (pos 0) d ≡ true → ltb_ℤ (pos 0) (or_default x d) ≡ true
or_default_positive x d h = ground arith

-- No limit is left at 0 or below, and only the empty configuration is switched on.
default_compaction_config_lem :
    (c : CompactionConfig)
    → (ltb_ℤ (pos 0) (default_compaction_config c).context_window ≡ true)
      × (ltb_ℤ (pos 0) (default_compaction_config c).reserve_tokens ≡ true)
      × (ltb_ℤ (pos 0) (default_compaction_config c).keep_recent_tokens ≡ true)
      × (is_zero_config c ≡ false → (default_compaction_config c).enabled ≡ c.enabled)
unfolding default_compaction_config
default_compaction_config_lem c = (
  or_default_positive c.context_window (pos 128000) refl,
  or_default_positive c.reserve_tokens (pos 16384) refl,
  or_default_positive c.keep_recent_tokens (pos 20000) refl,
  λ e. rw e refl,
)
