-- ===== src/App/Tests.antt =====
-- A window on two records.
use btui.Prelude.{◌≡◌, refl, false, [], ◌∷◌, arith}
use btui.Model.{BtuiModel, SortOrder, no_filter, record_count}
use btui.App.{BtuiApp, Key, handle_event}
use btui.App.Selection.{InView, handle_event-InView}

abbrev a_model : BtuiModel
a_model = record {
  event_format = [];
  date_format = [];
  all_records = [];
  filtered_indices = 0 ∷ 1 ∷ [];
  filter_state = no_filter;
  sort_order = SortOrder.unsorted;
}

abbrev an_app : BtuiApp
an_app = record {
  model = a_model;
  state = record {
    selected_index = 1;
    scroll_offset = 5;
    show_detail = false;
    show_help = false;
    tail_mode = false;
    show_utc_time = false;
    filter_input_active = false;
    active_filter_field = 0;
    filter_input_buffer = [];
  };
  file_paths = [];
  tail_running = false;
  tail_joinable = false;
  exited = false;
}

two_records : record_count a_model ≡ 2
unfolding record_count
two_records = refl

handle_event-InView_example : InView (handle_event Key.page_down an_app).0
handle_event-InView_example =
    handle_event-InView an_app (omega (arith, two_records)) (omega (arith, two_records))
      Key.page_down
