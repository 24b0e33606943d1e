-- ===== src/Thread.antt =====
-- core/thread: the sessions of Codex (manager.go) and the catalogue of them (global_catalog.go).
-- The short cache of the catalogue is left out; Codex answers from outside.
use codex_link_clawbot.Prelude.{
  ltb, leb, ◌==◌, max, if◌then◌else◌, bool_eq, reject_if, ◌>>=◌, ◌>>◌, Fallible, ok, err, length,
  take, drop, filter, any, ℕ, zero, suc, ◌+◌, ◌-◌, ◌*◌, ◌/◌, Bool, true, false, ◌&&◌, ◌||◌, not,
  Option, none, some, List, [], ◌∷◌, ◌++◌,
}
use codex_link_clawbot.Text.{Text, text, text_eq, is_empty, rune_count, trim_space, contains_any}
use codex_link_clawbot.Workspace.{match_workspace, contains_path, Definition, FileSystem}
pub mod Scanned
pub mod Pages
pub mod Opened

-- The parts of `codex.ThreadInfo` that are read here.
pub record ThreadInfo : Type 0 where
  pub id : Text
  pub name : Text
  pub cwd : Text
  pub status : Text
  pub recency_at : Option ℕ
  pub updated_at : ℕ

pub data ThreadError : Type 0 where
  codex_unavailable cursor_did_not_advance scan_limit thread_unavailable : ThreadError
  names_missing outside_workspace thread_is_busy not_a_single_line name_too_long : ThreadError
  resume_failed start_failed naming_failed page_exceeds : ThreadError

-- A page of the thread list.
pub record ThreadPage : Type 0 where
  pub threads : List ThreadInfo
  pub next_cursor : Text

-- `codex.ThreadClient`, whose answers to a list depend on the round too.
pub record ThreadClient : Type 0 where
  pub list_threads : ℕ → Bool → Text → Text → Option ThreadPage
  pub resume_thread : Text → Text → Option ThreadInfo
  pub start_thread : Text → Option ThreadInfo
  pub set_thread_name : Text → Text → Bool
  pub archive_thread : Text → Bool

-- What the manager asks of Codex beyond reading, an archiving with its answer, and its own
-- Invalidate.
pub data ThreadCall : Type 0 where
  resumes : Text → ThreadCall
  starts : ThreadInfo → ThreadCall
  archives : Text → Bool → ThreadCall
  invalidates : ThreadCall

abbrev pub max_session_name : ℕ
max_session_name = 80

abbrev pub scan_rounds : ℕ
scan_rounds = 100

-- A round of the inner loop of `scanGlobalThreads`: the ids that it has seen, and the threads so
-- far.
unfoldable pub add_thread : ThreadInfo → List Text × List ThreadInfo → List Text × List ThreadInfo
unfolding trim_space is_empty text_eq
add_thread t so_far =
    if is_empty (trim_space t.id) || any (λ k. text_eq k t.id) so_far.0
    then so_far
    else (t.id ∷ so_far.0, so_far.1 ++ (t ∷ []))

unfoldable pub add_threads :
    List ThreadInfo → List Text × List ThreadInfo → List Text × List ThreadInfo
unfolding add_thread
add_threads [] so_far = so_far
add_threads (t ∷ rest) so_far = add_threads rest (add_thread t so_far)

-- The loop of `scanGlobalThreads`, with the rounds that are left and the cursors that it has seen.
unfoldable pub scan_from :
    ThreadClient
    → Bool
    → Text
    → ℕ
    → ℕ
    → Text
    → List Text
    → List Text × List ThreadInfo
    → Fallible ThreadError (List ThreadInfo)
unfolding add_threads is_empty text_eq
scan_from client archived query zero round cursor cursors so_far = err scan_limit
scan_from client archived query (suc left) round cursor cursors so_far =
    elim (client.list_threads round archived query cursor) [
      | none ↦ err codex_unavailable
      | some page ↦
          let next = add_threads page.threads so_far in
          let further =
            scan_from client archived query left (round + 1) page.next_cursor
              (page.next_cursor ∷ cursors) next in
          if is_empty page.next_cursor
          then ok next.1
          else if any (λ k. text_eq k page.next_cursor) cursors
          then err cursor_did_not_advance
          else further
    ]

-- `scanGlobalThreads`
unfoldable pub scan_global_threads :
    ThreadClient → Bool → Text → Fallible ThreadError (List ThreadInfo)
unfolding scan_from
scan_global_threads client archived query =
    scan_from client archived query scan_rounds 0 [] [] ([], [])

unfoldable pub thread_by_id : Text → List ThreadInfo → Option ThreadInfo
unfolding text_eq
thread_by_id id [] = none
thread_by_id id (t ∷ rest) =
    let later = thread_by_id id rest in if text_eq t.id id then some t else later

-- `ReadAvailableThread`
unfoldable pub read_available_thread : ThreadClient → Text → Fallible ThreadError ThreadInfo
unfolding scan_global_threads thread_by_id
read_available_thread client id = do
  threads ← scan_global_threads client false []
  elim (thread_by_id id threads) [ some t ↦ ok t | none ↦ err thread_unavailable ]

-- `UseGlobalThread`
unfoldable pub use_global_thread :
    FileSystem → ThreadClient → Text → Definition → Text → Fallible ThreadError ThreadInfo
unfolding read_available_thread contains_path trim_space is_empty
use_global_thread fs client owner d id = do
  reject_if (is_empty (trim_space owner) || is_empty (trim_space d.id) || is_empty (trim_space id))
      names_missing
  t ← read_available_thread client (trim_space id)
  reject_if (not (contains_path fs t.cwd d.root)) outside_workspace
  ok t

-- `normalizeName`
unfoldable pub normalize_name : Text → Fallible ThreadError Text
unfolding trim_space contains_any
normalize_name raw = do
  let name = trim_space raw
  reject_if (contains_any name (13 ∷ 10 ∷ 0 ∷ [])) not_a_single_line
  reject_if (ltb max_session_name (rune_count name)) name_too_long
  ok name

-- The part of `OpenTaskThread` on a thread that is given.
unfoldable pub resume_available :
    FileSystem → ThreadClient → Text → Text → List ThreadCall × Fallible ThreadError ThreadInfo
unfolding read_available_thread contains_path text_eq text
resume_available fs client root id = elim (read_available_thread client id) [
  | err e ↦ ([], err e)
  | ok t ↦
      if not (contains_path fs t.cwd root)
      then ([], err outside_workspace)
      else if text_eq t.status (text "active")
      then ([], err thread_is_busy)
      else elim (client.resume_thread id root) [
        | none ↦ (resumes id ∷ [], err resume_failed)
        | some resumed ↦ (resumes id ∷ [], ok resumed)
      ]
]

-- The part of `OpenTaskThread` that starts a thread: Codex is asked to archive one that cannot be
-- named, and its answer is ignored.
unfoldable pub start_named :
    ThreadClient → Text → Text → List ThreadCall × Fallible ThreadError ThreadInfo
unfolding is_empty
start_named client root name = elim (client.start_thread root) [
  | none ↦ ([], err start_failed)
  | some t ↦
      if is_empty name
      then (starts t ∷ invalidates ∷ [], ok t)
      else if client.set_thread_name t.id name
      then (starts t ∷ invalidates ∷ [], ok (record t { name = name }))
      else (starts t ∷ archives t.id (client.archive_thread t.id) ∷ [], err naming_failed)
]

-- `OpenTaskThread`
unfoldable pub open_task_thread :
    FileSystem
    → ThreadClient
    → Text
    → Definition
    → Text
    → Text
    → List ThreadCall × Fallible ThreadError ThreadInfo
unfolding resume_available start_named normalize_name trim_space is_empty
open_task_thread fs client owner d id suggested =
    let root = trim_space d.root in
    if is_empty (trim_space owner) || is_empty (trim_space d.id) || is_empty root
    then ([], err names_missing)
    else if not (is_empty (trim_space id))
    then resume_available fs client root (trim_space id)
    else elim (normalize_name suggested) [
      | err e ↦ ([], err e)
      | ok name ↦ start_named client root name
    ]

-- `ShortCode`, on a text of one-byte runes as the ids of Codex are.
unfoldable pub short_code : Text → Text
short_code id = if leb (length id) 8 then id else drop (length id - 8) id

-- `recency`
unfoldable pub recency : ThreadInfo → ℕ
recency t = elim t.recency_at [ some at ↦ at | none ↦ t.updated_at ]

abbrev pub is_active_thread : ThreadInfo → Bool
is_active_thread t = text_eq t.status (text "active")

-- The order of `GlobalList`: active ones first, then the most recent ones.
unfoldable pub comes_before : ThreadInfo → ThreadInfo → Bool
unfolding recency text_eq text
comes_before a b =
    if bool_eq (is_active_thread a) (is_active_thread b)
    then ltb (recency b) (recency a)
    else is_active_thread a

-- `sort.SliceStable`: a thread goes before the first one that does not come before it.
unfoldable pub insert_thread : ThreadInfo → List ThreadInfo → List ThreadInfo
unfolding comes_before
insert_thread t [] = t ∷ []
insert_thread t (u ∷ rest) =
    let later = insert_thread t rest in if comes_before u t then u ∷ later else t ∷ u ∷ rest

unfoldable pub sort_threads : List ThreadInfo → List ThreadInfo
unfolding insert_thread
sort_threads [] = []
sort_threads (t ∷ rest) = insert_thread t (sort_threads rest)

-- `GlobalPage`
pub record GlobalPage : Type 0 where
  pub items : List ThreadInfo
  pub number : ℕ
  pub total_pages : ℕ
  pub total : ℕ
  pub running : ℕ
  pub loaded : ℕ

-- The filter of `GlobalList`.
unfoldable pub listed_threads :
    FileSystem → List Definition → Bool → List ThreadInfo → List ThreadInfo
unfolding match_workspace text_eq text
listed_threads fs workspaces running_only threads =
    filter
      (λ t.
        not (running_only && not (is_active_thread t))
        && elim (match_workspace fs t.cwd workspaces) [ none ↦ false | some d ↦ true ])
      threads

abbrev pub pages_of : ℕ → ℕ → ℕ
pages_of total size = max 1 ((total + size - 1) / size)

-- The page of `GlobalList`; a number or a size that is not positive is 0.
unfoldable pub page_of : ℕ → ℕ → List ThreadInfo → Fallible ThreadError GlobalPage
unfolding text_eq text
page_of wanted page_size items =
    let size = if page_size == 0 then 12 else page_size in
    let number = if wanted == 0 then 1 else wanted in
    let pages = pages_of (length items) size in
    if ltb pages number
    then err page_exceeds
    else ok (record {
      items = take size (drop ((number - 1) * size) items);
      number = number;
      total_pages = pages;
      total = length items;
      running = length (filter is_active_thread items);
      loaded = length (filter (λ t. not (text_eq t.status (text "notLoaded"))) items);
    })

-- `GlobalList` on the directory's threads.
unfoldable pub global_list :
    FileSystem → List Definition → Bool → ℕ → ℕ → List ThreadInfo → Fallible ThreadError GlobalPage
unfolding listed_threads sort_threads page_of
global_list fs workspaces running_only wanted page_size threads =
    page_of wanted page_size (sort_threads (listed_threads fs workspaces running_only threads))
