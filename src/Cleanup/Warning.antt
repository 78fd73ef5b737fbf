-- ===== src/Cleanup/Warning.antt =====
-- `syncTestCleanup` and `syncTestCleanupWarning` of app/webui/app.js: where the cleanup switch of
-- the Pair & test tab is offered, and the warning that a run would silently skip cleanup.
use vocagateway.Base.{Bool, not, ◌&&◌, [], Option, none, some, Text, text_eq, if◌then◌else◌, codes}

-- `cleanupCapability`: two fields of the gateway's answer, by their truth.
pub record Capability : Type 0 where
  pub supported : Bool
  pub auto_language : Bool

-- The three controls that the warning concerns, where the page has them.
pub record Controls : Type 0 where
  pub language : Text
  pub mode : Text
  pub warning : Text
  pub warning_hidden : Bool

pub record TestPanel : Type 0 where
  pub capability : Capability
  pub controls : Option Controls
  pub field_hidden : Option Bool
  pub tile_hidden : Option Bool

unfoldable pub is_stranded : Capability → Controls → Bool
is_stranded capability c =
    text_eq c.mode (codes "conservative")
    && text_eq c.language (codes "auto")
    && not capability.auto_language

unfoldable pub warning_text : Text
warning_text =
    codes
      "Cleanup cannot run on “Detect language”: nothing reports which language was spoken. Pick a language above, or set one on the Cleanup tab under “When language is auto”."

unfoldable pub sync_controls : Capability → Controls → Controls
unfolding is_stranded
sync_controls capability c = record c {
  warning = if is_stranded capability c then warning_text else [];
  warning_hidden = not (is_stranded capability c);
}

unfoldable pub sync_test_cleanup_warning : TestPanel → TestPanel
unfolding sync_controls
sync_test_cleanup_warning p = record p {
  controls = elim p.controls [ none ↦ none | some c ↦ some (sync_controls p.capability c) ];
}

-- The reply to the capabilities request: `none` where the request or the decoding threw, or the
-- response was not ok; else `capabilities.cleanup || {}`.
unfoldable pub sync_test_cleanup : Option Capability → TestPanel → TestPanel
unfolding sync_test_cleanup_warning
sync_test_cleanup reply p = elim p.field_hidden [
  | none ↦ p
  | some _ ↦ elim reply [
    | none ↦ p
    | some capability ↦ sync_test_cleanup_warning (record p {
      capability = capability;
      field_hidden = some (not capability.supported);
      tile_hidden = elim p.tile_hidden [ none ↦ none | some _ ↦ some (not capability.supported) ];
    })
  ]
]
