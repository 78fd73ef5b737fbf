-- ===== src/Cleanup/Stranded.antt =====
-- When the cleanup warning of app/webui/app.js (`syncTestCleanup`) is shown.
use vocagateway.Base.{
  ◌≡◌, ◌↔◌, refl, Bool, true, false, not, ◌&&◌, [], none, some, text_eq, arith, codes, inl, inr,
  Bool-cases, text_eq_iff,
}
use vocagateway.Cleanup.Warning.{
  Capability, Controls, TestPanel, is_stranded, sync_controls, warning_text, sync_test_cleanup,
}

&&-eq-true : (a b : Bool) → (a && b) ≡ true → (a ≡ true) × (b ≡ true)
&&-eq-true a b h = ground arith

not-eq-true : (a : Bool) → not a ≡ true → a ≡ false
not-eq-true a h = ground arith

-- When the warning is due.
abbrev pub IsStranded : Capability → Controls → Type 0
IsStranded k c =
    (c.mode ≡ codes "conservative") × (c.language ≡ codes "auto") × (k.auto_language ≡ false)

is_stranded_iff : (k : Capability) (c : Controls) → (is_stranded k c ≡ true) ↔ IsStranded k c
unfolding is_stranded
is_stranded_iff k c = (
  λ h.
      let mode = text_eq c.mode (codes "conservative") in
      let language = text_eq c.language (codes "auto") in
      let (both, unknown) = &&-eq-true (mode && language) (not k.auto_language) h in
      let (m, l) = &&-eq-true mode language both in
      (
        (text_eq_iff c.mode (codes "conservative")).0 m,
        (text_eq_iff c.language (codes "auto")).0 l,
        not-eq-true k.auto_language unknown,
      ),
  λ (m, l, a). rw (m, l, a),
)

pub sync_controls_lem :
    (k : Capability) (c : Controls)
    → (((sync_controls k c).warning_hidden ≡ false) ↔ IsStranded k c)
      × (((sync_controls k c).warning ≡ []) ↔ ((sync_controls k c).warning_hidden ≡ true))
unfolding sync_controls warning_text
sync_controls_lem k c = elim (Bool-cases (is_stranded k c)) [
  | inl e ↦ rw e ((λ _. (is_stranded_iff k c).0 e, λ _. refl), (λ q. absurd (cc), λ q. absurd (cc)))
  | inr e ↦
      rw e
        ((λ q. absurd (cc), λ s. absurd (cc ((is_stranded_iff k c).1 s))), (λ _. refl, λ _. refl))
]

-- Where the page has the cleanup field and the controls, a reply with the gateway's capability
-- hides the field and the benchmark tile unless cleanup is supported, and shows the warning, with
-- its text, exactly when cleanup is on, the language is left to be detected, and this gateway has
-- no language for that. A reply that failed changes nothing.
pub sync_test_cleanup_lem :
    (k : Capability) (p : TestPanel) (c : Controls) (b : Bool)
    → p.controls ≡ some c
    → p.field_hidden ≡ some b
    → ((sync_test_cleanup (some k) p).field_hidden ≡ some (not k.supported))
      × ((t : Bool)
          → p.tile_hidden ≡ some t
          → (sync_test_cleanup (some k) p).tile_hidden ≡ some (not k.supported))
      × ((d : Controls) × ((sync_test_cleanup (some k) p).controls ≡ some d)
          × ((d.warning_hidden ≡ false) ↔ IsStranded k c)
          × ((d.warning ≡ []) ↔ (d.warning_hidden ≡ true)))
      × (sync_test_cleanup none p ≡ p)
unfolding sync_test_cleanup
sync_test_cleanup_lem k p c b pc pb = (
  rw pb refl,
  λ t e. rw (pb, e) refl,
  (sync_controls k c, rw (pb, pc) refl, (sync_controls_lem k c).0, (sync_controls_lem k c).1),
  rw pb refl,
)
