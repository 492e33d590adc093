-- ===== src/App.antt =====
-- bin/btui_app.hpp and btui_app.cpp: the state of the log viewer's window, its key handler, the clamping
-- of the selection before a frame is drawn, and the start and stop of the tail thread. What is drawn is
-- not modelled.
pub mod Selection
mod Tests
use btui.Prelude.{
  ℕ, zero, suc, ◌+◌, ◌-◌, ◌%◌, ◌^◌, Bool, true, false, not, ◌&&◌, ◌||◌, List, [], ◌∷◌, ◌++◌, length,
  ltb, leb, ◌==◌, if◌then◌else◌, sub64,
}
use btui.Text.{is_empty}
use btui.Model.{
  BtuiModel, FilterState, record_count, total_record_count, apply_filters, cycle_severity_filter,
  reset_filters, cycle_sort_order,
}

pub record AppState : Type 0 where
  pub selected_index : ℕ
  pub scroll_offset : ℕ
  pub show_detail : Bool
  pub show_help : Bool
  pub tail_mode : Bool
  pub show_utc_time : Bool
  pub filter_input_active : Bool
  pub active_filter_field : ℕ
  pub filter_input_buffer : List ℕ

-- `tail_running` is the flag that the tail thread polls; `tail_joinable` says that a thread was started and
-- not joined.
pub record BtuiApp : Type 0 where
  pub model : BtuiModel
  pub state : AppState
  pub file_paths : List (List ℕ)
  pub tail_running : Bool
  pub tail_joinable : Bool
  pub exited : Bool

unfoldable pub new : BtuiModel → List (List ℕ) → Bool → BtuiApp
new model paths tail = record {
  model = model;
  state = record {
    selected_index = 0;
    scroll_offset = 0;
    show_detail = false;
    show_help = false;
    tail_mode = tail;
    show_utc_time = false;
    filter_input_active = false;
    active_filter_field = 0;
    filter_input_buffer = [];
  };
  file_paths = paths;
  tail_running = false;
  tail_joinable = false;
  exited = false;
}

abbrev pub page_size : ℕ
page_size = 20

-- The terminal's events: a character is the bytes that it sends.
pub data Key : Type 0 where
  character : List ℕ → Key
  escape return backspace arrow_down arrow_up home end page_up page_down other : Key

abbrev pub is_dash : List ℕ → Bool
is_dash (c ∷ []) = c == b'-'
is_dash _ = false

abbrev pub tailable : List (List ℕ) → Bool
tailable [] = false
tailable (p ∷ ps) = not (is_dash p)

unfoldable pub start_tail_thread : BtuiApp → BtuiApp
start_tail_thread a =
    if a.tail_running
    then a
    else (if tailable a.file_paths
        then record a { tail_running = true; tail_joinable = true }
        else a)

unfoldable pub stop_tail_thread : BtuiApp → BtuiApp
stop_tail_thread a = record a { tail_running = false; tail_joinable = false }

abbrev pub with_state : AppState → BtuiApp → BtuiApp
with_state s a = record a { state = s }

-- `pop_back` of a string that is not empty.
pub pop_back : List ℕ → List ℕ
pop_back [] = []
pop_back (c ∷ []) = []
pop_back (c ∷ d ∷ s) = c ∷ pop_back (d ∷ s)

-- The filter that the entered text sets.
abbrev pub enter_filter : AppState → FilterState → FilterState
enter_filter s fs =
    if s.active_filter_field == 0
    then record fs { message_filter = s.filter_input_buffer }
    else (if s.active_filter_field == 1
        then record fs { category_filter = s.filter_input_buffer }
        else (if s.active_filter_field == 2
            then record fs { writer_filter = s.filter_input_buffer }
            else fs))

-- The handler while a filter is typed; the flag says whether the event was handled.
unfoldable pub filter_input : Key → BtuiApp → BtuiApp × Bool
unfolding pop_back is_empty
filter_input Key.escape a =
    (with_state (record a.state { filter_input_active = false; filter_input_buffer = [] }) a, true)
filter_input Key.return a = (
  record a {
    model =
        apply_filters (record a.model { filter_state = enter_filter a.state a.model.filter_state });
    state = record a.state {
      selected_index = 0;
      scroll_offset = 0;
      filter_input_active = false;
      filter_input_buffer = [];
    };
  },
  true,
)
filter_input Key.backspace a = (
  with_state
      (record a.state {
        filter_input_buffer =
            (if is_empty a.state.filter_input_buffer
              then []
              else pop_back a.state.filter_input_buffer);
      })
      a,
  true,
)
filter_input (Key.character c) a =
    (with_state (record a.state { filter_input_buffer = a.state.filter_input_buffer ++ c }) a, true)
filter_input _ a = (a, false)

abbrev pub select : ℕ → BtuiApp → BtuiApp
select i a = with_state (record a.state { selected_index = i }) a

abbrev pub select_top : BtuiApp → BtuiApp
select_top a = with_state (record a.state { selected_index = 0; scroll_offset = 0 }) a

unfoldable pub move_down : BtuiApp → BtuiApp
move_down a =
    if ltb 0 (record_count a.model) && ltb a.state.selected_index (record_count a.model - 1)
    then select (a.state.selected_index + 1) a
    else a

unfoldable pub move_up : BtuiApp → BtuiApp
move_up a = if ltb 0 a.state.selected_index then select (a.state.selected_index - 1) a else a

unfoldable pub jump_last : BtuiApp → BtuiApp
jump_last a = if ltb 0 (record_count a.model) then select (record_count a.model - 1) a else a

unfoldable pub move_page_up : BtuiApp → BtuiApp
move_page_up a =
    if ltb page_size a.state.selected_index
    then select (a.state.selected_index - page_size) a
    else select 0 a

unfoldable pub move_page_down : BtuiApp → BtuiApp
move_page_down a =
    let i = (a.state.selected_index + page_size) % 2 ^ 64 in
    if ltb 0 (record_count a.model) && leb (record_count a.model) i
    then select (record_count a.model - 1) a
    else select i a

unfoldable pub toggle_tail : BtuiApp → BtuiApp
unfolding start_tail_thread stop_tail_thread
toggle_tail a =
    let a' = with_state (record a.state { tail_mode = not a.state.tail_mode }) a in
    if not a.state.tail_mode then start_tail_thread a' else stop_tail_thread a'

unfoldable pub start_input : ℕ → List ℕ → BtuiApp → BtuiApp
start_input field text a =
    with_state
      (record a.state {
        filter_input_active = true;
        active_filter_field = field;
        filter_input_buffer = text;
      })
      a

unfoldable pub close_panel : BtuiApp → BtuiApp
close_panel a =
    if a.state.show_detail
    then with_state (record a.state { show_detail = false }) a
    else (if a.state.show_help then with_state (record a.state { show_help = false }) a else a)

abbrev pub toggle_detail : BtuiApp → BtuiApp
toggle_detail a = with_state (record a.state { show_detail = not a.state.show_detail }) a

-- The commands of single characters in normal mode: the second half of the chain,
unfoldable pub panel_command : ℕ → BtuiApp → BtuiApp × Bool
panel_command c a =
    if c == b'h' || c == b'?'
    then (with_state (record a.state { show_help = not a.state.show_help }) a, true)
    else (if c == b'/'
        then (start_input 0 a.model.filter_state.message_filter a, true)
        else (if c == b'c'
            then (start_input 1 a.model.filter_state.category_filter a, true)
            else (if c == b'w'
                then (start_input 2 a.model.filter_state.writer_filter a, true)
                else (if c == b's'
                    then (select_top (record a { model = cycle_severity_filter a.model }), true)
                    else (if c == b'r'
                        then (select_top (record a { model = reset_filters a.model }), true)
                        else (if c == b'o'
                            then (record a { model = cycle_sort_order a.model }, true)
                            else (if c == b't'
                                then (toggle_tail a, true)
                                else (if c == b'd'
                                    then (
                                      with_state
                                          (record a.state {
                                            show_utc_time = not a.state.show_utc_time;
                                          })
                                          a,
                                      true,
                                    )
                                    else (a, false)))))))))

-- and the first.
unfoldable pub command : ℕ → BtuiApp → BtuiApp × Bool
command c a =
    if c == b'q'
    then (record a { exited = true }, true)
    else (if c == b'j'
        then (move_down a, true)
        else (if c == b'k'
            then (move_up a, true)
            else (if c == b'g'
                then (select_top a, true)
                else (if c == b'G'
                    then (jump_last a, true)
                    else (if c == 2
                        then (move_page_up a, true)
                        else (if c == 6
                            then (move_page_down a, true)
                            else (if c == b' '
                                then (toggle_detail a, true)
                                else panel_command c a)))))))

unfoldable pub normal_key : Key → BtuiApp → BtuiApp × Bool
normal_key (Key.character (c ∷ [])) a = command c a
normal_key Key.arrow_down a = (move_down a, true)
normal_key Key.arrow_up a = (move_up a, true)
normal_key Key.home a = (select_top a, true)
normal_key Key.end a = (jump_last a, true)
normal_key Key.page_up a = (move_page_up a, true)
normal_key Key.page_down a = (move_page_down a, true)
normal_key Key.return a = (toggle_detail a, true)
normal_key Key.escape a = (close_panel a, true)
normal_key _ a = (a, false)

-- The handler of `CatchEvent`.
unfoldable pub handle_event : Key → BtuiApp → BtuiApp × Bool
handle_event key a = if a.state.filter_input_active then filter_input key a else normal_key key a

-- Before a frame with the given number of rows is drawn, selection and scroll position are clamped.
unfoldable pub clamp_view : ℕ → BtuiApp → BtuiApp
clamp_view visible_rows a =
    let count = record_count a.model in
    let selected =
      (if ltb 0 count && leb count a.state.selected_index
        then count - 1
        else a.state.selected_index) in
    let scroll = (if ltb selected a.state.scroll_offset then selected else a.state.scroll_offset) in
    with_state
      (record a.state {
        selected_index = selected;
        scroll_offset =
            (if leb ((scroll + visible_rows) % 2 ^ 64) selected
              then sub64 selected visible_rows + 1
              else scroll);
      })
      a

-- The tail thread's update of the selection after a load, with the `size_t` subtraction of the source.
unfoldable pub auto_scroll : ℕ → BtuiApp → BtuiApp
auto_scroll old_count a =
    let total = total_record_count a.model in
    let filtered = record_count a.model in
    if ltb old_count total
      && (ltb 0 filtered
          && leb (sub64 (sub64 filtered (total - old_count)) 1) a.state.selected_index)
    then select (filtered - 1) a
    else a
