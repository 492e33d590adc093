-- ===== src/PrettyPrinter/Names.antt =====
-- include/binlog/PrettyPrinter.cpp: the strings that it compares with and prints.
use btui.Prelude.{ℕ, List, [], ◌∷◌}

-- "binlog::address"
abbrev pub address_name : List ℕ
address_name =
    98 ∷ 105 ∷ 110 ∷ 108 ∷ 111 ∷ 103 ∷ 58 ∷ 58 ∷ 97 ∷ 100 ∷ 100 ∷ 114 ∷ 101 ∷ 115 ∷ 115 ∷ []

-- "`value'L"
abbrev pub address_tag : List ℕ
address_tag = 96 ∷ 118 ∷ 97 ∷ 108 ∷ 117 ∷ 101 ∷ 39 ∷ 76 ∷ []

-- "std::chrono::system_clock::time_point"
abbrev pub time_point_name : List ℕ
time_point_name =
    115 ∷ 116 ∷ 100 ∷ 58 ∷ 58 ∷ 99 ∷ 104 ∷ 114 ∷ 111 ∷ 110 ∷ 111 ∷ 58 ∷ 58 ∷ 115 ∷ 121 ∷ 115 ∷ 116
    ∷ 101 ∷ 109 ∷ 95 ∷ 99 ∷ 108 ∷ 111 ∷ 99 ∷ 107 ∷ 58 ∷ 58 ∷ 116 ∷ 105 ∷ 109 ∷ 101 ∷ 95 ∷ 112 ∷ 111
    ∷ 105 ∷ 110 ∷ 116 ∷ []

-- "`ns'l"
abbrev pub time_point_tag : List ℕ
time_point_tag = 96 ∷ 110 ∷ 115 ∷ 39 ∷ 108 ∷ []

-- "std::chrono::duration<Rep,"
abbrev pub duration_prefix : List ℕ
duration_prefix =
    115 ∷ 116 ∷ 100 ∷ 58 ∷ 58 ∷ 99 ∷ 104 ∷ 114 ∷ 111 ∷ 110 ∷ 111 ∷ 58 ∷ 58 ∷ 100 ∷ 117 ∷ 114 ∷ 97
    ∷ 116 ∷ 105 ∷ 111 ∷ 110 ∷ 60 ∷ 82 ∷ 101 ∷ 112 ∷ 44 ∷ []

-- "std::nano>"
abbrev pub nano_suffix : List ℕ
nano_suffix = 115 ∷ 116 ∷ 100 ∷ 58 ∷ 58 ∷ 110 ∷ 97 ∷ 110 ∷ 111 ∷ 62 ∷ []

-- "std::micro>"
abbrev pub micro_suffix : List ℕ
micro_suffix = 115 ∷ 116 ∷ 100 ∷ 58 ∷ 58 ∷ 109 ∷ 105 ∷ 99 ∷ 114 ∷ 111 ∷ 62 ∷ []

-- "std::milli>"
abbrev pub milli_suffix : List ℕ
milli_suffix = 115 ∷ 116 ∷ 100 ∷ 58 ∷ 58 ∷ 109 ∷ 105 ∷ 108 ∷ 108 ∷ 105 ∷ 62 ∷ []

-- "std::ratio<1>>"
abbrev pub second_suffix : List ℕ
second_suffix = 115 ∷ 116 ∷ 100 ∷ 58 ∷ 58 ∷ 114 ∷ 97 ∷ 116 ∷ 105 ∷ 111 ∷ 60 ∷ 49 ∷ 62 ∷ 62 ∷ []

-- "std::ratio<60>>"
abbrev pub minute_suffix : List ℕ
minute_suffix = 115 ∷ 116 ∷ 100 ∷ 58 ∷ 58 ∷ 114 ∷ 97 ∷ 116 ∷ 105 ∷ 111 ∷ 60 ∷ 54 ∷ 48 ∷ 62 ∷ 62 ∷ []

-- "std::ratio<3600>>"
abbrev pub hour_suffix : List ℕ
hour_suffix =
    115 ∷ 116 ∷ 100 ∷ 58 ∷ 58 ∷ 114 ∷ 97 ∷ 116 ∷ 105 ∷ 111 ∷ 60 ∷ 51 ∷ 54 ∷ 48 ∷ 48 ∷ 62 ∷ 62 ∷ []

-- "`count'l"
abbrev pub count_l : List ℕ
count_l = 96 ∷ 99 ∷ 111 ∷ 117 ∷ 110 ∷ 116 ∷ 39 ∷ 108 ∷ []

-- "`count'i"
abbrev pub count_i : List ℕ
count_i = 96 ∷ 99 ∷ 111 ∷ 117 ∷ 110 ∷ 116 ∷ 39 ∷ 105 ∷ []

-- "std::filesystem::path"
abbrev pub path_name : List ℕ
path_name =
    115 ∷ 116 ∷ 100 ∷ 58 ∷ 58 ∷ 102 ∷ 105 ∷ 108 ∷ 101 ∷ 115 ∷ 121 ∷ 115 ∷ 116 ∷ 101 ∷ 109 ∷ 58 ∷ 58
    ∷ 112 ∷ 97 ∷ 116 ∷ 104 ∷ []

-- "`str'[c"
abbrev pub path_tag : List ℕ
path_tag = 96 ∷ 115 ∷ 116 ∷ 114 ∷ 39 ∷ 91 ∷ 99 ∷ []

-- "std::filesystem::directory_entry"
abbrev pub entry_name : List ℕ
entry_name =
    115 ∷ 116 ∷ 100 ∷ 58 ∷ 58 ∷ 102 ∷ 105 ∷ 108 ∷ 101 ∷ 115 ∷ 121 ∷ 115 ∷ 116 ∷ 101 ∷ 109 ∷ 58 ∷ 58
    ∷ 100 ∷ 105 ∷ 114 ∷ 101 ∷ 99 ∷ 116 ∷ 111 ∷ 114 ∷ 121 ∷ 95 ∷ 101 ∷ 110 ∷ 116 ∷ 114 ∷ 121 ∷ []

-- "`path'{std::filesystem::path`str'[c}"
abbrev pub entry_tag : List ℕ
entry_tag =
    96 ∷ 112 ∷ 97 ∷ 116 ∷ 104 ∷ 39 ∷ 123 ∷ 115 ∷ 116 ∷ 100 ∷ 58 ∷ 58 ∷ 102 ∷ 105 ∷ 108 ∷ 101 ∷ 115
    ∷ 121 ∷ 115 ∷ 116 ∷ 101 ∷ 109 ∷ 58 ∷ 58 ∷ 112 ∷ 97 ∷ 116 ∷ 104 ∷ 96 ∷ 115 ∷ 116 ∷ 114 ∷ 39 ∷ 91
    ∷ 99 ∷ 125 ∷ []

-- "std::error_code"
abbrev pub error_name : List ℕ
error_name =
    115 ∷ 116 ∷ 100 ∷ 58 ∷ 58 ∷ 101 ∷ 114 ∷ 114 ∷ 111 ∷ 114 ∷ 95 ∷ 99 ∷ 111 ∷ 100 ∷ 101 ∷ []

-- "`message'[c"
abbrev pub error_tag : List ℕ
error_tag = 96 ∷ 109 ∷ 101 ∷ 115 ∷ 115 ∷ 97 ∷ 103 ∷ 101 ∷ 39 ∷ 91 ∷ 99 ∷ []

-- "no_clock_sync?"
abbrev pub no_clock_sync : List ℕ
no_clock_sync = 110 ∷ 111 ∷ 95 ∷ 99 ∷ 108 ∷ 111 ∷ 99 ∷ 107 ∷ 95 ∷ 115 ∷ 121 ∷ 110 ∷ 99 ∷ 63 ∷ []

-- "true"
abbrev pub true_chars : List ℕ
true_chars = 116 ∷ 114 ∷ 117 ∷ 101 ∷ []

-- "false"
abbrev pub false_chars : List ℕ
false_chars = 102 ∷ 97 ∷ 108 ∷ 115 ∷ 101 ∷ []

-- "UTC"
abbrev pub utc : List ℕ
utc = 85 ∷ 84 ∷ 67 ∷ []
