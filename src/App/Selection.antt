-- ===== src/App/Selection.antt =====
-- The selected row and the scroll position stay inside what is shown.
use btui.Prelude.{
  ℕ, ◌+◌, ◌≤◌, ◌<◌, ◌^◌, ◌≡◌, ◌⊎◌, refl, Bool, true, false, arith, inl, inr, [], ◌∷◌, if◌then◌else◌,
  ◌==◌, ◌||◌,
}
use btui.Model.{record_count, cycle_sort_order}
use btui.Model.Filtering.{record_count-cycle_sort_order}
use btui.App.{
  BtuiApp, Key, handle_event, clamp_view, move_down, move_up, jump_last, move_page_up,
  move_page_down, toggle_tail, start_tail_thread, stop_tail_thread, close_panel, command,
  panel_command, normal_key, filter_input, start_input,
}

-- With records to show, fewer than 2 ^ 63, and a window of rows: clamping before a frame puts the
-- selection on a shown record, and the scroll position where the selected row is visible.
pub clamp_view_lem :
    (rows : ℕ) (a : BtuiApp)
    → 0 < rows
    → rows < 2 ^ 32
    → record_count a.model < 2 ^ 63
    → 0 < record_count a.model
    → (clamp_view rows a).state.selected_index < record_count a.model
      × ((clamp_view rows a).state.scroll_offset ≤ (clamp_view rows a).state.selected_index)
      × ((clamp_view rows a).state.selected_index < (clamp_view rows a).state.scroll_offset + rows)
unfolding clamp_view
clamp_view_lem rows a h g k l = ground arith

-- The selection is a shown record, or the first row.
abbrev pub InView : BtuiApp → Type 0
InView a = (a.state.selected_index ≡ 0) ⊎ (a.state.selected_index < record_count a.model)

toggle_tail_keeps :
    (a : BtuiApp)
    → ((toggle_tail a).model ≡ a.model)
      × ((toggle_tail a).state.selected_index ≡ a.state.selected_index)
unfolding toggle_tail start_tail_thread stop_tail_thread
toggle_tail_keeps a = ground arith

toggle_tail-InView :
    (a : BtuiApp) → a.state.selected_index < record_count a.model → InView (toggle_tail a)
toggle_tail-InView a h = let (m, s) = toggle_tail_keeps a in rw (m, s) (inr h)

module _ (a : BtuiApp) (shown : a.state.selected_index < record_count a.model)
    (bound : record_count a.model < 2 ^ 63) where
  move_page_down-InView : InView (move_page_down a)
  unfolding move_page_down
  move_page_down-InView = ground arith

  move_page_up-InView : InView (move_page_up a)
  unfolding move_page_up
  move_page_up-InView = ground arith

  move_down-InView : InView (move_down a)
  unfolding move_down
  move_down-InView = ground arith

  move_up-InView : InView (move_up a)
  unfolding move_up
  move_up-InView = ground arith

  jump_last-InView : InView (jump_last a)
  unfolding jump_last
  jump_last-InView = ground arith

  close_panel-InView : InView (close_panel a)
  unfolding close_panel
  close_panel-InView = ground arith

  sort-InView : InView (record a { model = cycle_sort_order a.model })
  sort-InView = inr (rw record_count-cycle_sort_order shown)

  if-InView :
      (t : Bool) (x y : BtuiApp × Bool) → InView x.0 → InView y.0 → InView (if t then x else y).0
  if-InView true x y h g = h
  if-InView false x y h g = g

  panel_command-InView : (c : ℕ) → InView (panel_command c a).0
  unfolding panel_command start_input
  panel_command-InView c = if-InView (c == b'h' || c == b'?') _ _ (inr shown) (
      if-InView (c == b'/') _ _ (inr shown) (
        if-InView (c == b'c') _ _ (inr shown) (
          if-InView (c == b'w') _ _ (inr shown) (
            if-InView (c == b's') _ _ (inl refl) (
              if-InView (c == b'r') _ _ (inl refl) (
                if-InView (c == b'o') _ _ sort-InView (
                  if-InView (c == b't') _ _ (toggle_tail-InView a shown)
                    (if-InView (c == b'd') _ _ (inr shown) (inr shown)))))))))

  command-InView : (c : ℕ) → InView (command c a).0
  unfolding command
  command-InView c = if-InView (c == b'q') _ _ (inr shown) (
      if-InView (c == b'j') _ _ move_down-InView (
        if-InView (c == b'k') _ _ move_up-InView (
          if-InView (c == b'g') _ _ (inl refl) (
            if-InView (c == b'G') _ _ jump_last-InView (
              if-InView (c == 2) _ _ move_page_up-InView (
                if-InView (c == 6) _ _ move_page_down-InView
                  (if-InView (c == b' ') _ _ (inr shown) (panel_command-InView c))))))))

  normal_key-InView : (k : Key) → InView (normal_key k a).0
  unfolding normal_key
  normal_key-InView (Key.character (c ∷ [])) = command-InView c
  normal_key-InView Key.arrow_down = move_down-InView
  normal_key-InView Key.arrow_up = move_up-InView
  normal_key-InView Key.home = inl refl
  normal_key-InView Key.end = jump_last-InView
  normal_key-InView Key.page_up = move_page_up-InView
  normal_key-InView Key.page_down = move_page_down-InView
  normal_key-InView Key.return = inr shown
  normal_key-InView Key.escape = close_panel-InView
  normal_key-InView _ = inr shown

  filter_input-InView : (k : Key) → InView (filter_input k a).0
  unfolding filter_input
  filter_input-InView Key.escape = inr shown
  filter_input-InView Key.return = inl refl
  filter_input-InView Key.backspace = inr shown
  filter_input-InView (Key.character c) = inr shown
  filter_input-InView _ = inr shown

  -- From a selected record that is shown, with fewer than 2 ^ 63 records shown, every key leaves the selection on a shown record, or on the
  -- first row of what is then shown.
  pub handle_event-InView : (k : Key) → InView (handle_event k a).0
  unfolding handle_event
  handle_event-InView k =
      if-InView a.state.filter_input_active _ _ (filter_input-InView k) (normal_key-InView k)

-- With no records, a page down moves the selection twenty rows on all the same.
pub page_down_empty :
    (a : BtuiApp)
    → record_count a.model ≡ 0
    → a.state.selected_index < 2 ^ 63
    → (move_page_down a).state.selected_index ≡ a.state.selected_index + 20
unfolding move_page_down
page_down_empty a h k = ground arith
