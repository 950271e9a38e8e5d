-- ===== src/Conversations/History.antt =====
-- Reading the messages of a conversation backwards, page by page.
use mathlib.Core.Path.{◌∙◌, subst}
use baa_system.Base.{
  ℕ, zero, suc, ◌+◌, ◌-◌, ◌*◌, ◌≤◌, ◌≡◌, sym, ap, true, false, Option, none, some, List, [], ◌++◌,
  reverse, arith, length, take, take_all, drop, select, ltb, order_by-Numbered, Bool-cases, inl,
  inr,
}
use baa_system.Models.{Message, Database}
use baa_system.Conversations.Queries.{messages_of, is_older, list_messages}
use baa_system.Conversations.Service.{page_of}
use baa_system.Log.Paging.{Numbered-take}
use baa_system.Conversations.Pages.{
  NumberedFrom, take-take, take-append-drop, length-take, no_length, select_below, select-true,
  page_items, page_next, page_last,
}

-- A client that starts with a cursor and follows `next_cursor` for so many pages: all that it has
-- read, the oldest message first.
unfoldable pub read_history : Database → ℕ → ℕ → ℕ → Option ℕ → List Message
read_history db conversation_id limit zero cursor = []
read_history db conversation_id limit (suc rounds) cursor =
    let page = page_of limit (list_messages db conversation_id cursor (limit + 1)) in
    elim page.next_cursor [
      | none ↦ page.items
      | some before_seq ↦
          read_history db conversation_id limit rounds (some before_seq) ++ page.items
    ]

module _ (db : Database) (conversation_id limit : ℕ) (some_limit : 1 ≤ limit)
    (numbered : NumberedFrom 1 (messages_of conversation_id db)) where
  abbrev all : List Message
  all = messages_of conversation_id db

  abbrev older : Option ℕ → List Message
  older cursor = select (is_older cursor) all

  older_lem : (cursor : Option ℕ) → (k : ℕ) × (older cursor ≡ take k all)
  older_lem none = (length all, select-true all ∙ sym (take_all (length all) all (omega arith)))
  older_lem (some b) = (b - 1, select_below (λ (m : Message). m.seq_no) 0 b all numbered)

  older-Numbered : (cursor : Option ℕ) → NumberedFrom 1 (older cursor)
  older-Numbered cursor =
      let (k, e) = older_lem cursor in
      subst (NumberedFrom 1) (sym e) (Numbered-take (λ (m : Message). m.seq_no) k 1 all numbered)

  rows :
      (cursor : Option ℕ) (n : ℕ)
      → list_messages db conversation_id cursor n ≡ take n (reverse (older cursor))
  unfolding list_messages
  rows cursor n =
      ap (λ ms. take n (reverse ms))
        (order_by-Numbered (λ (m : Message). m.seq_no) 1 (older cursor) (older-Numbered cursor))

  -- What is older than the cursor after a page is what the page leaves.
  older_next :
      (cursor : Option ℕ)
      → older (some (1 + (length (older cursor) - limit)))
        ≡ take (length (older cursor) - limit) (older cursor)
  older_next cursor =
      let (k, e) = older_lem cursor in
      let left = length (older cursor) - limit in
      select_below (λ (m : Message). m.seq_no) 0 (1 + left) all numbered
      ∙ ap (λ n. take n all) (omega arith)
      ∙ sym (take-take left k all (ground (arith, length-take k all, ap length e)))
      ∙ ap (take left) (sym e)

  less_left :
      (rounds : ℕ) (cursor : Option ℕ)
      → length (older cursor) ≤ suc rounds * limit
      → length (older (some (1 + (length (older cursor) - limit)))) ≤ rounds * limit
  less_left rounds cursor le =
      rw (older_next cursor)
        (rw (length-take (length (older cursor) - limit) (older cursor)) (ground arith))

  -- The last page, and one with older pages before it.
  read_last :
      (rounds : ℕ) (cursor : Option ℕ)
      → ltb limit (length (older cursor)) ≡ false
      → read_history db conversation_id limit (suc rounds) cursor ≡ older cursor
  unfolding read_history
  read_last rounds cursor e =
      let all_of_it : length (older cursor) - limit ≡ 0 = ground arith in
      rw
        (
          rows cursor (limit + 1),
          page_last limit some_limit (older cursor) (older-Numbered cursor) e,
          read_history,
        )
        (rw
          (
            rows cursor (limit + 1),
            page_items limit some_limit (older cursor) (older-Numbered cursor),
          )
          (ap (λ n. drop n (older cursor)) all_of_it))

  read_more :
      (rounds : ℕ) (cursor : Option ℕ)
      → ltb limit (length (older cursor)) ≡ true
      → let left = length (older cursor) - limit in
        read_history db conversation_id limit (suc rounds) cursor
        ≡ read_history db conversation_id limit rounds (some (1 + left)) ++ drop left (older cursor)
  unfolding read_history
  read_more rounds cursor e =
      rw
        (
          rows cursor (limit + 1),
          page_next limit some_limit (older cursor) (older-Numbered cursor) e,
          read_history,
        )
        (rw (
          rows cursor (limit + 1),
          page_items limit some_limit (older cursor) (older-Numbered cursor),
        ))

  read_lem :
      (rounds : ℕ) (cursor : Option ℕ)
      → length (older cursor) ≤ rounds * limit
      → read_history db conversation_id limit rounds cursor ≡ older cursor
  unfolding read_history
  read_lem zero cursor le = no_length (older cursor) (omega arith)
  read_lem (suc rounds) cursor le = elim (Bool-cases (ltb limit (length (older cursor)))) [
    | inr e ↦ read_last rounds cursor e
    | inl e ↦
        let left = length (older cursor) - limit in
        read_more rounds cursor e
        ∙ ap (λ ms. ms ++ drop left (older cursor))
            (read_lem rounds (some (1 + left)) (less_left rounds cursor le) ∙ older_next cursor)
        ∙ take-append-drop left (older cursor)
  ]

  -- A user who reads a conversation backwards, page by page, reads the whole conversation: if its
  -- messages are numbered 1, 2, 3, ..., a page has at least one message, and there are enough pages
  -- for all, then the pages are together the messages of the conversation, each once and in order.
  pub read_history_lem :
      (rounds : ℕ)
      → length (messages_of conversation_id db) ≤ rounds * limit
      → read_history db conversation_id limit rounds none ≡ messages_of conversation_id db
  read_history_lem rounds le = read_lem rounds none (rw (select-true all) le) ∙ select-true all
