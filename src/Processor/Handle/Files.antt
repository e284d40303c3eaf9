-- ===== src/Processor/Handle/Files.antt =====
-- The files and the counter that `CsvProcessor::handle` (src/impl/CsvProcessor.cpp) leaves behind.
use csv_to_kafka_using_cpp.Prelude.{
  ℕ, ◌+◌, ◌-◌, ◌%◌, ◌^◌, ◌<◌, none, some, List, ◌++◌, ◌≡◌, ◌≢◌, refl, sym, ap, ◌∙◌, arith, length,
  length-append, ◌⊎◌, inl, inr, Bool-cases,
}
use csv_to_kafka_using_cpp.Prelude.Text.{Text, codes, text_eq_refl, text_eq_ne}
use csv_to_kafka_using_cpp.Prelude.Result.{Result, ok, throws, undefined}
use csv_to_kafka_using_cpp.Transformers.{Transformer}
use csv_to_kafka_using_cpp.Processor.State.{Library, World, value, crashed, waiting}
use csv_to_kafka_using_cpp.Processor.Handle.{
  Directory, rename, in_progress, finished, Job, Site, finish, after_loop, handle,
}
use csv_to_kafka_using_cpp.Processor.Handle.Lines.{handle-for_lines}

-- The directory of a processed file: nothing at its path or the path in progress, its content at the finished path.
pub record IsMoved (path content : Text) (before after : Directory) : Type 0 where
  pub no_path : after path ≡ none
  pub no_in_progress : after (in_progress path) ≡ none
  pub kept : after (finished path) ≡ some content
  pub others :
      (other : Text)
      → path ≢ other
      → in_progress path ≢ other
      → finished path ≢ other
      → after other ≡ before other

pub longer : (path suffix : Text) → 0 < length suffix → path ++ suffix ≢ path
longer path suffix h e = omega (arith, ap (λ (t : Text). length t) e, length-append path suffix, h)

pub in_progress-finished : (path : Text) → finished path ≢ in_progress path
in_progress-finished path e = omega (
  arith,
  ap (λ (t : Text). length t) e,
  length-append path (codes "_inprogress"),
  length-append path (codes "_done"),
)

-- A successful `rename`, path by path.
module _ (old new content : Text) (files : Directory) (h : files old ≡ some content) where
  pub rename_new : (rename old new files).0 new ≡ some content
  unfolding rename
  rename_new = rw (h, rename) (rw (text_eq_refl new) refl)

  pub rename_old : new ≢ old → (rename old new files).0 old ≡ none
  unfolding rename
  rename_old d = rw (h, rename) (rw (text_eq_ne old new (λ e. d (sym e)), text_eq_refl old) refl)

  pub rename_other :
      (other : Text) → old ≢ other → new ≢ other → (rename old new files).0 other ≡ files other
  unfolding rename
  rename_other other a b =
      rw (h, rename)
        (rw (text_eq_ne other new (λ e. b (sym e)), text_eq_ne other old (λ e. a (sym e))) refl)

-- The two renames of a file.
pub rename-rename :
    (path content : Text) (files : Directory)
    → files path ≡ some content
    → IsMoved path content files
        (rename (in_progress path) (finished path) (rename path (in_progress path) files).0).0
rename-rename path content files h =
    let files' : Directory = (rename path (in_progress path) files).0 in
    let h' : files' (in_progress path) ≡ some content =
      rename_new path (in_progress path) content files h in
    let apart : in_progress path ≢ path = longer path _ (omega arith) in
    let apart' : finished path ≢ path = longer path _ (omega arith) in
    let last = rename_other (in_progress path) (finished path) content files' h' in
    record {
      no_path = last path apart apart' ∙ rename_old path (in_progress path) content files h apart;
      no_in_progress =
          rename_old (in_progress path) (finished path) content files' h'
            (in_progress-finished path);
      kept = rename_new (in_progress path) (finished path) content files' h';
      others = λ other a b c.
          last other b c ∙ rename_other path (in_progress path) content files h other a b;
    }

-- `fetch_add(1)` and `fetch_add(-1)`.
pub counter_back : (n : ℕ) → n < 2 ^ 64 → ((n + 1) % 2 ^ 64 + (2 ^ 64 - 1)) % 2 ^ 64 ≡ n
counter_back n h = omega (arith, h)

module _ (library : Library) (m_transformers : List Transformer) where
  -- The three ways in which a call for a file ends, with the renamed file where it returns.
  after_loop_ends :
      (path content : Text) (site : Site library) (start : Job (World library))
      (r : Result (Job (World library)))
      → (before : Directory)
      → IsMoved path content before (rename (in_progress path) (finished path) site.files).0
      → (n : ℕ) → (site.active_processors + (2 ^ 64 - 1)) % 2 ^ 64 ≡ n
      → (((after_loop library path site start (some r)).1 ≡ value tt)
          × IsMoved path content before (after_loop library path site start (some r)).0.files
          × ((after_loop library path site start (some r)).0.active_processors ≡ n))
        ⊎ (((after_loop library path site start (some r)).1 ≡ crashed)
            ⊎ ((after_loop library path site start (some r)).1 ≡ waiting))
  unfolding after_loop finish
  after_loop_ends path content site start (ok job) before m n c = elim (Bool-cases job.blocked) [
    | inl b ↦ inr (inr (rw b refl))
    | inr b ↦ inl (rw b (refl, m, c))
  ]
  after_loop_ends path content site start (throws e) before m n c =
      elim (Bool-cases start.blocked) [
        | inl b ↦ inr (inr (rw b refl))
        | inr b ↦ inl (rw b (refl, m, c))
      ]
  after_loop_ends path content site start undefined before m n c = inr (inl refl)

  -- A call of `handle` for a file never ends with an exception. If it returns, the file is at
  -- the finished path with its content and no longer at its own or the path in progress, no
  -- other path has changed, and the counter of the active processors is as before. Otherwise
  -- the behaviour was undefined, or the producer still is to answer.
  pub handle_ends :
      (path content : Text) (site : Site library)
      → site.files path ≡ some content
      → site.active_processors < 2 ^ 64
      → let r = handle library m_transformers path site in
        ((r.1 ≡ value tt)
          × IsMoved path content site.files r.0.files
          × (r.0.active_processors ≡ site.active_processors))
        ⊎ ((r.1 ≡ crashed) ⊎ (r.1 ≡ waiting))
  handle_ends path content site h n =
      rw (handle-for_lines library m_transformers path content site h) (
        after_loop_ends path content _ _ _ site.files (rename-rename path content site.files h)
          site.active_processors (counter_back site.active_processors n))

  -- A call of `handle` for a path where there is no file changes no file and sends nothing, and
  -- the counter is as before.
  handle_missing :
      (path : Text) (site : Site library)
      → site.files path ≡ none
      → site.active_processors < 2 ^ 64
      → let r = handle library m_transformers path site in
        (r.1 ≡ value tt)
        × (r.0.files ≡ site.files)
        × (r.0.world ≡ site.world)
        × (r.0.active_processors ≡ site.active_processors)
  unfolding handle
  handle_missing path site h n =
      rw (h, handle) (refl, refl, refl, counter_back site.active_processors n)
