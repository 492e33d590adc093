-- ===== src/BtuiMain/Tests.antt =====
-- Loading a file with an event and its source, and behind it one that is cut off.
use btui.Prelude.{ℕ, ◌<◌, ◌≡◌, ◌⊎◌, none, some, List, [], ◌∷◌, length, arith, ◌==◌, if◌then◌else◌}
use btui.Result.{ok}
use btui.EntryStream.{Istream}
use btui.Range.{le_bytes}
use btui.Entries.{EventSource, serialize_size_prefixed_tagged, serialize_string}
use btui.EventStream.Decode.{Item, encode, encode_all}
use btui.GetOpt.{Arguments}
use btui.Bread.{Files}
use btui.EntryStream.{opened}
use btui.Model.{BtuiModel, new}
use btui.Model.Load.{Printer}
use btui.BtuiMain.{load_paths}
use btui.BtuiMain.Loading.{Loaded, Enough, load_paths_lem}

abbrev printer : List ℕ → Printer
printer date_format event writer sync = ok []

abbrev a_source : EventSource
a_source = record {
  id = 1;
  severity = 128;
  category = [];
  function = [];
  file = [];
  line = 0;
  format_string = [];
  argument_tags = [];
}

abbrev log : List ℕ
log = encode_all (Item.source a_source ∷ Item.event 1 1000 [] ∷ [])

log-short : length log < 200
unfolding encode_all encode serialize_size_prefixed_tagged serialize_string le_bytes
log-short = omega arith

-- The log under a name that starts with a, and one byte under one that starts with b.
abbrev files : Files
files [] = none
files (x ∷ path) = if x == b'a' then some log else (if x == b'b' then some (1 ∷ []) else none)

files-short : (path content : List ℕ) → files path ≡ some content → length content < 200
files-short [] content e = cc
files-short (x ∷ path) content e = ground (arith, log-short)

abbrev paths : Arguments
paths = (b'a' ∷ []) ∷ (b'b' ∷ []) ∷ []

abbrev stdin : Istream
stdin = opened []

stdin-Enough : Enough printer printer printer files 200 stdin
stdin-Enough = (omega arith, omega arith)

load_paths_lem_example :
    (r : ℕ ⊎ BtuiModel) × (load_paths printer printer printer files 200 paths stdin (new [] [])
      ≡ some r)
    × Loaded printer printer printer files 200 paths stdin (new [] []) (some r)
load_paths_lem_example =
    load_paths_lem printer printer printer files 200 paths stdin (new [] []) stdin-Enough
      files-short
