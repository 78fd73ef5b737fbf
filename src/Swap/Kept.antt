-- ===== src/Swap/Kept.antt =====
-- The families that are open stay open over a swap (app/webui/app.js).
use vocagateway.Base.{
  ℕ, ◌≡◌, refl, ap, ◌∙◌, Bool, false, ◌&&◌, ◌||◌, [], ◌∷◌, ◌++◌, none, some, arith,
}
use vocagateway.Families.Grid.{
  Grid, tiles, open_family_names, restore_open_families, sync_families_expand_toggle,
}
use vocagateway.Families.Order.{is_in}
use vocagateway.Families.Opened.{is_in-filter, sync_tile, or_false, restore_tile}
use vocagateway.Families.Sessions.{children-sync}
use vocagateway.Swap.Hooks.{Page, names_of, swap_list, swap_operations}

names_lem :
    (g : Grid) (u : ℕ) → is_in u (open_family_names g) ≡ is_in u (tiles g.children) && g.tile_open u
unfolding open_family_names
names_lem g u = is_in-filter g.tile_open (tiles g.children) u

-- A swap of the list of models leaves a family open exactly if the new list has it and it was open
-- before. The new list comes with all families closed.
pub swap_list_lem :
    (cols : ℕ) (served : Grid) (g : Grid) (p : Page)
    → p.grid ≡ some g
    → ((u : ℕ) → served.tile_open u ≡ false)
    → (h : Grid) × ((swap_list cols served p).grid ≡ some h)
      × ((u : ℕ)
          → h.tile_open u
            ≡ is_in u (tiles served.children) && (is_in u (tiles g.children) && g.tile_open u))
      × ((swap_list cols served p).restores ≡ p.restores ++ p.scroll_y ∷ p.scroll_y ∷ [])
      × ((swap_list cols served p).open_model_families ≡ none)
unfolding swap_list
swap_list_lem cols served g p here closed =
    let shut = sync_families_expand_toggle served in
    let names = open_family_names g in
    (
      restore_open_families cols names shut,
      ap (λ o. some (restore_open_families cols (names_of o) shut)) here,
      λ u.
          restore_tile cols names shut u
          ∙ ap (λ b. (is_in u (tiles shut.children) && is_in u names) || b)
              (sync_tile served u ∙ closed u)
          ∙ or_false (is_in u (tiles shut.children) && is_in u names)
          ∙ ap (λ cs. is_in u (tiles cs) && is_in u names) (children-sync served)
          ∙ ap (λ b. is_in u (tiles served.children) && b) (names_lem g u),
      refl,
      refl,
    )

-- A swap of the operations leaves the performance details open or closed as they were.
pub swap_operations_lem :
    (cols : ℕ) (p : Page) (b : Bool)
    → p.details ≡ some b
    → (swap_operations cols p).details ≡ some b
unfolding swap_operations
swap_operations_lem cols p b e = ground arith
