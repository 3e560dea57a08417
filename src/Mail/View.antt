-- ===== src/Mail/View.antt =====
-- What the message list shows: `filteredMessages`, `sortedMessages`, `paginatedMessages`, the
-- neighbours of the open message, and the counters of the sidebar (App.tsx).
use byos_email.Base.{
  ℕ, ◌+◌, ◌-◌, ◌*◌, String, Bool, true, false, not, ◌&&◌, ◌||◌, Option, none, some, List, [], ◌∷◌,
  str_eq, ltb, if◌then◌else◌, length, filter, take, drop, has, find_index, get_elem?,
}
use byos_email.Base.Text.{Text, to_lower_case, trim, includes, is_empty}
use byos_email.Mail.{
  Folder, inbox, trash, other, folder_eq, Message, CustomFolder, Label, SortOrder, newest, oldest,
  unread, Browse, State, id_is,
}

-- `!m.folderId || m.folderId === ""`
abbrev pub no_folder_id : Message → Bool
no_folder_id m = elim m.folder_id [ none ↦ true | some id ↦ str_eq id "" ]

abbrev pub folder_id_is : String → Message → Bool
folder_id_is id m = elim m.folder_id [ none ↦ false | some i ↦ str_eq i id ]

-- `m.labelIds?.includes(id)`
abbrev pub has_label : String → Message → Bool
has_label id m = elim m.label_ids [ none ↦ false | some ids ↦ has ids id ]

-- `!m.folder`: the empty text is the one false folder.
abbrev pub no_folder : Folder → Bool
no_folder (other s) = str_eq s ""
no_folder _ = false

abbrev pub in_current : Folder → Message → Bool
in_current inbox m = no_folder_id m && (no_folder m.folder || folder_eq m.folder inbox)
in_current f m = folder_eq m.folder f

abbrev pub in_label : Option Label → Folder → Message → Bool
in_label (some label) cur m = has_label label.id m && not (folder_eq m.folder trash)
in_label none cur m = in_current cur m

abbrev pub in_custom : Option CustomFolder → Option Label → Folder → Message → Bool
in_custom (some folder) label cur m = folder_id_is folder.id m && not (folder_eq m.folder trash)
in_custom none label cur m = in_label label cur m

-- `matchFolder`
unfoldable pub match_folder : Browse → Message → Bool
match_folder b m = in_custom b.active_custom_folder b.active_label b.current_folder m

abbrev pub query : Browse → Text
query b = trim (to_lower_case b.search_query)

abbrev pub local_match : Text → Message → Bool
local_match q m =
    includes (to_lower_case m.sender) q
    || includes (to_lower_case m.subject) q
    || includes (to_lower_case m.snippet) q

abbrev pub server_token_match : List String → Message → Bool
server_token_match ids m =
    has ids m.id || elim m.message_id [ none ↦ false | some i ↦ not (str_eq i "") && has ids i ]

unfoldable pub matches : Browse → Message → Bool
matches b m =
    if is_empty (query b)
    then match_folder b m
    else match_folder b m
      && (local_match (query b) m || server_token_match b.server_matched_msg_ids m)

unfoldable pub filtered_messages : State → List Message
unfolding matches
filtered_messages s = filter (matches s.browse) s.messages

-- `new Date(date).getTime()` is a parameter, `none` for NaN; times are counted from the earliest
-- one that a Date holds.
module _ (get_time : String → Option ℕ) where
  -- The sign of `time(a) - time(b)` as "a comes after b"; a NaN counts as 0.
  abbrev pub later : Message → Message → Bool
  later a b = elim (get_time a.date) [
    | none ↦ false
    | some t ↦ elim (get_time b.date) [ none ↦ false | some u ↦ ltb u t ]
  ]

  -- Whether the comparator of `list.sort` answers a positive number: `b` goes before `a`.
  unfoldable pub comes_after : SortOrder → Message → Message → Bool
  comes_after newest a b = later b a
  comes_after oldest a b = later a b
  comes_after unread a b = elim a.read [
    | true ↦ elim b.read [ true ↦ later b a | false ↦ true ]
    | false ↦ elim b.read [ true ↦ false | false ↦ later b a ]
  ]

-- A stable sort: an element goes in front of the first one that must come after it.
pub insert_by : (Message → Message → Bool) → Message → List Message → List Message
insert_by after m [] = m ∷ []
insert_by after m (x ∷ xs) =
    let rest = insert_by after m xs in if after m x then x ∷ rest else m ∷ x ∷ xs

pub sort_by : (Message → Message → Bool) → List Message → List Message
sort_by after [] = []
sort_by after (m ∷ ms) = insert_by after m (sort_by after ms)

abbrev pub page_size : ℕ
page_size = 50

module _ (get_time : String → Option ℕ) where
  unfoldable pub sorted_messages : State → List Message
  unfolding sort_by insert_by filtered_messages comes_after
  sorted_messages s = sort_by (comes_after get_time s.browse.sort_order) (filtered_messages s)

  -- `list.slice(start, start + pageSize)`
  unfoldable pub paginated_messages : State → List Message
  paginated_messages s =
      take page_size (drop ((s.browse.current_page - 1) * page_size) (sorted_messages s))

  -- `currentMsgIndex`, with `none` for -1
  unfoldable pub current_msg_index : State → Option ℕ
  current_msg_index s = elim s.selected_msg [
    | none ↦ none
    | some sel ↦ find_index (id_is sel.id) (sorted_messages s)
  ]

  unfoldable pub has_prev_message : State → Bool
  unfolding current_msg_index
  has_prev_message s = elim (current_msg_index s) [ none ↦ false | some i ↦ ltb 0 i ]

  unfoldable pub has_next_message : State → Bool
  unfolding current_msg_index
  has_next_message s = elim (current_msg_index s) [
    | none ↦ false
    | some i ↦ ltb (i + 1) (length (sorted_messages s))
  ]

  -- The message that `handlePrevMessage` opens.
  unfoldable pub prev_message : State → Option Message
  unfolding current_msg_index
  prev_message s = elim (current_msg_index s) [
    | none ↦ none
    | some i ↦ if ltb 0 i then get_elem? (sorted_messages s) (i - 1) else none
  ]

  -- The message that `handleNextMessage` opens.
  unfoldable pub next_message : State → Option Message
  unfolding current_msg_index
  next_message s = elim (current_msg_index s) [
    | none ↦ none
    | some i ↦
        if ltb (i + 1) (length (sorted_messages s))
        then get_elem? (sorted_messages s) (i + 1)
        else none
  ]
