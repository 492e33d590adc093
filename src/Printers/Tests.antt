-- ===== src/Printers/Tests.antt =====
-- A source and an event of it, written to a fresh stream with the format "%I".
use btui.Prelude.{◌+◌, List, [], ◌∷◌, All, arith}
use btui.Prelude.Int.{pos, pos_part}
use btui.EventStream.{EventStream, fresh}
use btui.EventStream.Decode.{Item, FitsItem, initial, encode_all}
use btui.PrettyPrinter.{Platform, PrettyPrinter, make, print_event}
use btui.Printers.{write}
use btui.Printers.Sorted.{fresh-Agrees}
use btui.Printers.Items.{Prints, print_items, write-print_items}

abbrev platform : Platform
platform = record {
  print_signed = λ z. (48 + pos_part z) ∷ [];
  print_unsigned = λ n. (48 + n) ∷ [];
  print_floating = λ c bits. [];
  print_nine = λ z. [];
  gmtime = λ t. record {
    tm_year = pos 70;
    tm_mon = pos 0;
    tm_mday = pos 1;
    tm_hour = pos 0;
    tm_min = pos 0;
    tm_sec = t;
  };
}

abbrev items : List Item
items =
    Item.source (record {
      id = 1;
      severity = 128;
      category = [];
      function = [];
      file = [];
      line = 0;
      format_string = [];
      argument_tags = [];
    })
    ∷ Item.event 1 1000 []
    ∷ []

items-Fits : All FitsItem items
items-Fits = omega arith

write-print_items_example :
    Prints
      (print_event platform)
      (print_items (print_event platform) initial items (make (37 ∷ 73 ∷ []) []) [])
      (write platform (encode_all items) fresh (make (37 ∷ 73 ∷ []) []) [])
write-print_items_example =
    write-print_items platform items initial fresh (make (37 ∷ 73 ∷ []) []) [] items-Fits
      fresh-Agrees
