-- ===== src/BtuiMain/Loading.antt =====
-- What loading the files leaves.
use btui.Prelude.{
  ℕ, ◌≡◌, ◌-◌, ◌≤◌, ◌<◌, length, arith, subst, refl, sym, ap, ◌∙◌, true, false, ◌⊎◌, inl, inr,
  Option, none, some, List, [], ◌∷◌, ◌++◌, append-nil, append_assoc, All, Bool-cases,
}
use btui.Result.{Result, ok, throw}
use btui.EntryStream.{Istream}
use btui.EventStream.{fresh}
use btui.GetOpt.{Arguments}
use btui.Bread.{is_dash, Files}
use btui.EntryStream.{opened}
use btui.EventStream.Progress.{istream_stream}
use btui.Model.{BtuiModel, LogRecord, apply_filters, apply_sorting}
use btui.EventStream.Progress.{istream_shrinks}
use btui.EventStream.Advance.{istream-Advances}
use btui.Model.Total.{load_total}
use btui.Model.Load.{Printer, Reads, load_from_entry_stream, load_lem, finish}
use btui.BtuiMain.{Loads, on_loaded, load_stream, load_file, load_paths, stdin_name}

module _ (print_local print_utc print_message : List ℕ → Printer) (files : Files) (fuel : ℕ) where
  -- The standard input, or a file that is opened.
  abbrev pub Opens : List ℕ → Type 0
  Opens path = (is_dash path ≡ true) ⊎ ((content : List ℕ) × (files path ≡ some content))

  -- The first path that does not open, behind paths that do.
  abbrev pub Stops : Arguments → Type 0
  Stops paths =
      (before : Arguments) × (path : List ℕ) × (behind : Arguments) × (paths
        ≡ before ++ (path ∷ behind))
      × All Opens before
      × (is_dash path ≡ false)
      × (files path ≡ none)

  -- The records of the paths, with a date format and a standard input: those of the stream of each path in turn, where
  -- a dash goes on with the standard input where the dash before it stopped, and a path names a file that opens.
  pub data ReadsAll (date_format : List ℕ) : Arguments → Istream → List LogRecord → Type 0 where
    no_paths : (cin : Istream) → ReadsAll date_format [] cin []
    from_stdin :
        (path : List ℕ) (paths : Arguments) (cin cin' : Istream) (recs more : List LogRecord)
        (out : Result (Unit {0}))
        → is_dash path ≡ true
        → Reads
            (print_local date_format)
            (print_utc date_format)
            (print_message date_format)
            istream_stream
            stdin_name
            cin
            fresh
            recs
            cin'
            out
        → ReadsAll date_format paths cin' more
        → ReadsAll date_format (path ∷ paths) cin (recs ++ more)
    from_file :
        (path : List ℕ) (paths : Arguments) (content : List ℕ) (cin s : Istream)
        (recs more : List LogRecord) (out : Result (Unit {0}))
        → is_dash path ≡ false
        → files path ≡ some content
        → Reads
            (print_local date_format)
            (print_utc date_format)
            (print_message date_format)
            istream_stream
            path
            (opened content)
            fresh
            recs
            s
            out
        → ReadsAll date_format paths cin more
        → ReadsAll date_format (path ∷ paths) cin (recs ++ more)

  abbrev pub Loaded : Arguments → Istream → BtuiModel → Loads → Type 0
  Loaded paths cin m none = Unit {0}
  Loaded paths cin m (some (inl code)) = (code ≡ 2) × Stops paths
  Loaded paths cin m (some (inr m')) =
      (added : List LogRecord) × ReadsAll m.date_format paths cin added
      × (m'.all_records ≡ m.all_records ++ added)

  -- What a load of a stream does to the model.
  abbrev Appended : BtuiModel → BtuiModel → List LogRecord → Type 0
  Appended m m1 recs = (m1.date_format ≡ m.date_format) × (m1.all_records ≡ m.all_records ++ recs)

  finish-Appended :
      (name : List ℕ) (out : Result (Unit {0})) (m m1 : BtuiModel) (recs : List LogRecord)
      → m1
        ≡ finish
            (print_local m.date_format)
            (print_utc m.date_format)
            (print_message m.date_format)
            istream_stream
            name
            out
            (record m { all_records = m.all_records ++ recs })
      → Appended m m1 recs
  unfolding apply_filters apply_sorting
  finish-Appended name (throw e) m m1 recs q =
      (ap (λ x. x.date_format) q, ap (λ x. x.all_records) q)
  finish-Appended name (ok u) m m1 recs q = (ap (λ x. x.date_format) q, ap (λ x. x.all_records) q)

  Loaded-behind :
      (path : List ℕ) (paths : Arguments) (cin cin' : Istream) (m m1 : BtuiModel)
      (recs : List LogRecord) (x : Loads)
      → Opens path
      → Appended m m1 recs
      → ((more : List LogRecord)
          → ReadsAll m.date_format paths cin' more
          → ReadsAll m.date_format (path ∷ paths) cin (recs ++ more))
      → Loaded paths cin' m1 x
      → Loaded (path ∷ paths) cin m x
  Loaded-behind path paths cin cin' m m1 recs none o a c h = tt
  Loaded-behind path paths cin cin' m m1 recs (some (inl code)) o a c
        (e, (before, p, behind, q, os, d, n)) =
      (e, (path ∷ before, p, behind, ap (λ l. path ∷ l) q, (o, os), d, n))
  Loaded-behind path paths cin cin' m m1 recs (some (inr m')) o (f, e) c (more, r, g) = (
    recs ++ more,
    c more (subst (λ d. ReadsAll d paths cin' more) f r),
    g ∙ ap (λ l. l ++ more) e ∙ append_assoc m.all_records recs more,
  )

  -- A load of a stream, with the records of the paths behind it.
  load_stream-Loaded :
      (k : Istream → BtuiModel → Loads) (path name : List ℕ) (paths : Arguments)
      (input cin : Istream) (m : BtuiModel) (cin_behind : Istream → Istream)
      → Opens path
      → ((s : Istream) (m1 : BtuiModel) → Loaded paths (cin_behind s) m1 (k s m1))
      → ((s : Istream) (recs more : List LogRecord) (out : Result (Unit {0}))
          → Reads
              (print_local m.date_format)
              (print_utc m.date_format)
              (print_message m.date_format)
              istream_stream
              name
              input
              fresh
              recs
              s
              out
          → ReadsAll m.date_format paths (cin_behind s) more
          → ReadsAll m.date_format (path ∷ paths) cin (recs ++ more))
      → (r : Option (BtuiModel × Istream × Result (Unit {0})))
      → load_from_entry_stream
          (print_local m.date_format)
          (print_utc m.date_format)
          (print_message m.date_format)
          istream_stream
          name
          fuel
          input
          fresh
          m
        ≡ r
      → Loaded (path ∷ paths) cin m (on_loaded print_local print_utc print_message files fuel k r)
  load_stream-Loaded k path name paths input cin m cin_behind o h c none e = tt
  load_stream-Loaded k path name paths input cin m cin_behind o h c (some (m1, s, out)) e =
      let (recs, reads, q) =
        load_lem (print_local m.date_format) (print_utc m.date_format) (print_message m.date_format)
          istream_stream name fuel input fresh m e in
      Loaded-behind path paths cin (cin_behind s) m m1 recs (k s m1) o
        (finish-Appended name out m m1 recs q) (λ more r. c s recs more out reads r) (h s m1)

  load_file-Loaded :
      (k : BtuiModel → Loads) (path : List ℕ) (paths : Arguments) (cin : Istream) (m : BtuiModel)
      → is_dash path ≡ false
      → ((m1 : BtuiModel) → Loaded paths cin m1 (k m1))
      → (o : Option (List ℕ)) → files path ≡ o
      → Loaded
          (path ∷ paths)
          cin
          m
          (load_file print_local print_utc print_message files fuel k path m o)
  load_file-Loaded k path paths cin m d h none e = (refl, ([], path, paths, refl, tt, d, e))
  load_file-Loaded k path paths cin m d h (some content) e =
      load_stream-Loaded (λ s m'. k m') path path paths (opened content) cin m (λ s. cin)
        (inr (content, e)) (λ s m1. h m1)
        (λ s recs more out reads r.
          ReadsAll.from_file path paths content cin s recs more out d e reads r)
        _ refl

  paths-Loaded :
      (paths : Arguments) (cin : Istream) (m : BtuiModel)
      → Loaded paths cin m (load_paths print_local print_utc print_message files fuel paths cin m)
  unfolding load_paths
  paths-Loaded [] cin m = ([], ReadsAll.no_paths cin, sym (append-nil m.all_records))
  paths-Loaded (path ∷ paths) cin m = elim (Bool-cases (is_dash path)) [
    | inl d ↦ rw d (
        load_stream-Loaded
          (λ s m'. load_paths print_local print_utc print_message files fuel paths s m') path
          stdin_name paths cin cin m (λ s. s) (inl d) (λ s m1. paths-Loaded paths s m1)
          (λ s recs more out reads r. ReadsAll.from_stdin path paths cin s recs more out d reads r)
          _ refl)
    | inr d ↦ rw d (
        load_file-Loaded
          (λ m'. load_paths print_local print_utc print_message files fuel paths cin m') path paths
          cin m d (λ m1. paths-Loaded paths cin m1) (files path) refl)
  ]

  -- The stream is inside of its content, and the fuel is more than what is left of it.
  abbrev pub Enough : Istream → Type 0
  Enough s = (s.pos ≤ length s.content) × (length s.content - s.pos < fuel)

  stream_total :
      (k : Istream → BtuiModel → Loads) (name : List ℕ) (input : Istream) (m : BtuiModel)
      → Enough input
      → ((s : Istream) (m' : BtuiModel) → Enough s → (r : ℕ ⊎ BtuiModel) × (k s m' ≡ some r))
      → (r : ℕ ⊎ BtuiModel) × (load_stream print_local print_utc print_message files fuel k name
            input m
          ≡ some r)
  stream_total k name input m (v, f) h =
      let (m', s', result, e, v', less) =
        load_total (print_local m.date_format) (print_utc m.date_format)
          (print_message m.date_format) istream_shrinks istream-Advances name fuel input fresh m v
          f in
      rw e (h s' m' (v', omega arith))

  file_total :
      (k : BtuiModel → Loads) (path : List ℕ) (m : BtuiModel)
      → ((content : List ℕ) → files path ≡ some content → length content < fuel)
      → ((m' : BtuiModel) → (r : ℕ ⊎ BtuiModel) × (k m' ≡ some r))
      → (o : Option (List ℕ)) → files path ≡ o
      → (r : ℕ ⊎ BtuiModel) × (load_file print_local print_utc print_message files fuel k path m o
          ≡ some r)
  file_total k path m c h none e = (inl 2, refl)
  file_total k path m c h (some content) e =
      stream_total (λ s m'. k m') path (opened content) m (omega arith, omega (arith, c content e))
        (λ s m' g. h m')

  paths_total :
      (paths : Arguments) (cin : Istream) (m : BtuiModel)
      → Enough cin
      → ((path content : List ℕ) → files path ≡ some content → length content < fuel)
      → (r : ℕ ⊎ BtuiModel) × (load_paths print_local print_utc print_message files fuel paths cin m
          ≡ some r)
  unfolding load_paths
  paths_total [] cin m g c = (inr m, refl)
  paths_total (path ∷ paths) cin m g c = elim (Bool-cases (is_dash path)) [
    | inl d ↦ rw d (
        stream_total (λ s m'. load_paths print_local print_utc print_message files fuel paths s m')
          stdin_name cin m g (λ s m' g'. paths_total paths s m' g' c))
    | inr d ↦ rw d (
        file_total (λ m'. load_paths print_local print_utc print_message files fuel paths cin m')
          path m (c path) (λ m'. paths_total paths cin m' g c) (files path) refl)
  ]

  -- Loading the files of a command line ends, with more fuel than each file has bytes and than are left in the
  -- standard input. Either it opens all of them, and appends behind the records of the model those of the files in
  -- the order of the command line: of each, one record for each event that `nextEvent` returns up to the end of the
  -- file or to its first exception, behind which the next file follows; or it exits with 2 at the first path that does not open, behind paths that do.
  pub load_paths_lem :
      (paths : Arguments) (cin : Istream) (m : BtuiModel)
      → Enough cin
      → ((path content : List ℕ) → files path ≡ some content → length content < fuel)
      → (r : ℕ ⊎ BtuiModel) × (load_paths print_local print_utc print_message files fuel paths cin m
          ≡ some r)
        × Loaded paths cin m (some r)
  load_paths_lem paths cin m g c =
      let (r, e) = paths_total paths cin m g c in
      (r, e, subst (Loaded paths cin m) e (paths-Loaded paths cin m))
