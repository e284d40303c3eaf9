-- ===== src/Main/Startup.antt =====
-- What the program needs to start (src/main.cpp).
use csv_to_kafka_using_cpp.Prelude.{
  ℕ, ◌-◌, ◌^◌, ◌<◌, Bool, true, false, not, Option, none, some, List, [], ◌∷◌, ◌≡◌, ◌↔◌, refl, sym,
  subst, ◌∙◌, arith, if◌then◌else◌, is_empty, Bool-cases, inl, inr,
}
use csv_to_kafka_using_cpp.Prelude.Text.{Text}
use csv_to_kafka_using_cpp.Main.{
  Argument, option_d, option_c, unknown_option, has_directory_bit, Settings, read_options,
  check_directory, check_config, parse_args, processor_thread_count,
}

-- The argument of the last option of each kind, or what was there before.
abbrev pub last_d : List Argument → Text → Text
last_d [] before = before
last_d (option_d t ∷ rest) before = last_d rest t
last_d (_ ∷ rest) before = last_d rest before

abbrev pub last_c : List Argument → Text → Text
last_c [] before = before
last_c (option_c t ∷ rest) before = last_c rest t
last_c (_ ∷ rest) before = last_c rest before

abbrev pub all_known : List Argument → Bool
all_known [] = true
all_known (unknown_option ∷ rest) = false
all_known (_ ∷ rest) = all_known rest

read_options_last :
    (arguments : List Argument) (s : Settings)
    → all_known arguments ≡ true
    → read_options arguments s
      ≡ some (record {
        config_file = last_c arguments (s.config_file);
        dir_to_watch = last_d arguments (s.dir_to_watch);
      })
unfolding read_options
read_options_last [] s h = refl
read_options_last (option_d t ∷ rest) s h = read_options_last rest (record s { dir_to_watch = t }) h
read_options_last (option_c t ∷ rest) s h = read_options_last rest (record s { config_file = t }) h
read_options_last (unknown_option ∷ rest) s h = cc

read_options_unknown :
    (arguments : List Argument) (s : Settings)
    → all_known arguments ≡ false
    → read_options arguments s ≡ none
unfolding read_options
read_options_unknown [] s h = cc
read_options_unknown (option_d t ∷ rest) s h =
    read_options_unknown rest (record s { dir_to_watch = t }) h
read_options_unknown (option_c t ∷ rest) s h =
    read_options_unknown rest (record s { config_file = t }) h
read_options_unknown (unknown_option ∷ rest) s h = refl

-- There is something at the path, with a mode that passes a test.
abbrev pub HasMode : Option ℕ → (ℕ → Bool) → Type 0
HasMode mode test = (st_mode : ℕ) × (mode ≡ some st_mode) × (test st_mode ≡ true)

-- A check of a path that is not empty, and of its mode.
checked_mode : (test : ℕ → Bool) → Bool → Option ℕ → Bool
checked_mode test is_blank mode =
    if is_blank then false else elim mode [ none ↦ false | some st_mode ↦ test st_mode ]

checked_mode_iff :
    (test : ℕ → Bool) (is_blank : Bool) (mode : Option ℕ)
    → (checked_mode test is_blank mode ≡ true) ↔ ((is_blank ≡ false) × HasMode mode test)
unfolding checked_mode
checked_mode_iff test true mode = (λ h. cc, λ h. let no = h.0 in cc)
checked_mode_iff test false none = (λ h. cc, λ (b, (m, e, t)). cc)
checked_mode_iff test false (some st_mode) =
    (λ h. (refl, (st_mode, refl, h)), λ (b, (m, e, t)). let same : m ≡ st_mode = cc in cc)

check_directory_iff :
    (stat : Text → Option ℕ) (path : Text)
    → (check_directory stat path ≡ true)
      ↔ ((is_empty path ≡ false) × HasMode (stat path) has_directory_bit)
unfolding check_directory checked_mode
check_directory_iff stat path = checked_mode_iff _ (is_empty path) (stat path)

check_config_iff :
    (stat : Text → Option ℕ) (path : Text)
    → (check_config stat path ≡ true)
      ↔ ((is_empty path ≡ false) × HasMode (stat path) (λ m. not (has_directory_bit m)))
unfolding check_config checked_mode
check_config_iff stat path =
    checked_mode_iff (λ m. not (has_directory_bit m)) (is_empty path) (stat path)

-- What the arguments say, checked.
abbrev given : List Argument → Settings
given arguments = record { config_file = last_c arguments []; dir_to_watch = last_d arguments [] }

parse_args_known :
    (stat : Text → Option ℕ) (arguments : List Argument)
    → all_known arguments ≡ true
    → parse_args stat arguments ≡ (
        if check_directory stat (last_d arguments [])
        then (if check_config stat (last_c arguments []) then some (given arguments) else none)
        else none)
unfolding parse_args
parse_args_known stat arguments h =
    rw (read_options_last arguments (record { config_file = []; dir_to_watch = [] }) h, parse_args)
      refl

parse_args_unknown :
    (stat : Text → Option ℕ) (arguments : List Argument)
    → all_known arguments ≡ false
    → parse_args stat arguments ≡ none
unfolding parse_args
parse_args_unknown stat arguments h =
    rw
      (
        read_options_unknown arguments (record { config_file = []; dir_to_watch = [] }) h,
        parse_args,
      )
      refl

-- The settings are those of the arguments, and they can be used.
pub record AreUsable (stat : Text → Option ℕ) (arguments : List Argument) (s : Settings)
    : Type 0 where
  pub known : all_known arguments ≡ true
  pub same_directory : s.dir_to_watch ≡ last_d arguments []
  pub same_config : s.config_file ≡ last_c arguments []
  pub some_directory : is_empty s.dir_to_watch ≡ false
  pub is_directory : HasMode (stat s.dir_to_watch) has_directory_bit
  pub some_config : is_empty s.config_file ≡ false
  pub no_directory : HasMode (stat s.config_file) (λ m. not (has_directory_bit m))

parse_args_sound :
    (stat : Text → Option ℕ) (arguments : List Argument) (s : Settings)
    → parse_args stat arguments ≡ some s
    → AreUsable stat arguments s
parse_args_sound stat arguments s h = elim (Bool-cases (all_known arguments)) [
  | inr k ↦ let e = parse_args_unknown stat arguments k in cc
  | inl k ↦ elim (Bool-cases (check_directory stat (last_d arguments []))) [
    | inr d ↦
        let e : parse_args stat arguments ≡ none = parse_args_known stat arguments k ∙ rw d refl in
        cc
    | inl d ↦ elim (Bool-cases (check_config stat (last_c arguments []))) [
      | inr c ↦
          let e : parse_args stat arguments ≡ none =
            parse_args_known stat arguments k ∙ rw (d, c) refl in
          cc
      | inl c ↦
          let e : parse_args stat arguments ≡ some (given arguments) =
            parse_args_known stat arguments k ∙ rw (d, c) refl in
          let same : given arguments ≡ s = cc in
          let (d_some, d_kind) = (check_directory_iff stat (last_d arguments [])).0 d in
          let (c_some, c_kind) = (check_config_iff stat (last_c arguments [])).0 c in
          subst (AreUsable stat arguments) same (record {
            known = k;
            same_directory = refl;
            same_config = refl;
            some_directory = d_some;
            is_directory = d_kind;
            some_config = c_some;
            no_directory = c_kind;
          })
    ]
  ]
]

parse_args_complete :
    (stat : Text → Option ℕ) (arguments : List Argument) (s : Settings)
    → AreUsable stat arguments s
    → parse_args stat arguments ≡ some s
parse_args_complete stat arguments s u =
    let d = (check_directory_iff stat (s.dir_to_watch)).1 (u.some_directory, u.is_directory) in
    let c = (check_config_iff stat (s.config_file)).1 (u.some_config, u.no_directory) in
    parse_args_known stat arguments u.known
    ∙ rw (sym u.same_directory, sym u.same_config, d, c) refl

-- The program starts exactly with arguments that are all known, whose last `-d` and last `-c` name
-- something that can be accessed, the first with the bit S_IFDIR in its mode and the second without;
-- these two are what it goes on with. The bit is that of directories, sockets and block devices.
pub parse_args_iff :
    (stat : Text → Option ℕ) (arguments : List Argument) (s : Settings)
    → (parse_args stat arguments ≡ some s) ↔ AreUsable stat arguments s
parse_args_iff stat arguments s =
    (parse_args_sound stat arguments s, parse_args_complete stat arguments s)

-- The number of processors is the number of hardware threads less 5, and 1 if there are 5. With
-- fewer than 5, 0 included, which stands for unknown, it wraps around to more than four billion.
pub processor_thread_count_cases :
    (n : ℕ)
    → n < 2 ^ 32
    → (5 < n → processor_thread_count n ≡ n - 5)
      × (n ≡ 5 → processor_thread_count n ≡ 1)
      × (n < 5 → processor_thread_count n ≡ 2 ^ 32 - (5 - n))
unfolding processor_thread_count
processor_thread_count_cases n h = (λ l. ground arith, λ e. ground arith, λ l. ground arith)
