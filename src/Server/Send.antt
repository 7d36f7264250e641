-- ===== src/Server/Send.antt =====
-- server_util.c: `send_data`, which hands a message to the subscribers, and `empty_queue`, which
-- hands a client that is back what was kept for it.
use client_server_protocoale.Common.{
  ℕ, zero, suc, ◌+◌, Option, none, some, true, false, not, List, [], ◌∷◌, ℤ, pos, dec, ltb, leb,
  ◌==◌, if◌then◌else◌, length, take,
}
use client_server_protocoale.CString.{strlen, memcmp_eq, size_of_int, zeros, overlay}
use client_server_protocoale.LinkedList.View.{View, add_last, remove_first}
use client_server_protocoale.Server.World.{
  Os, Act, pure, undefined, out_of_fuel, ◌>>=◌, ◌>>◌, die_if, deref, send, recv, type_of, failed,
}
use client_server_protocoale.Server.State.{
  TopicStructure, ClientStructure, string_len, max_len_buf, buflen,
}

-- `if (len > STRING_LEN) len = STRING_LEN;` and then `len - 1`, as a `size_t`
unfoldable pub compared_length : List ℕ → ℕ
unfolding size_of_int
compared_length topic =
    let len = strlen topic in
    size_of_int (dec (pos (if ltb string_len len then string_len else len)))

-- The inner loop: the first of the topics that the message's topic matches.
unfoldable pub find_topic : List ℕ → List TopicStructure → Option (Option TopicStructure)
find_topic topic [] = some none
find_topic topic (t ∷ ts) = elim (memcmp_eq (compared_length topic) t.topic topic) [
  | none ↦ none
  | some true ↦ some (some t)
  | some false ↦ find_topic topic ts
]

module _ {S : Type 0} (os : Os S) where
  -- `send`, then the wait for the subscriber's ACK; both buffers are of `len` bytes.
  unfoldable pub send_and_wait : ℤ → List ℕ → ℕ → Act S (Unit {0})
  send_and_wait sock bytes len = do
    ret ← send os sock bytes
    die_if (failed ret)
    (ret', answer) ← recv os sock len
    die_if (failed ret')
    die_if (not (type_of (overlay answer (zeros len)) == 4))

  -- The first `bytes` bytes of a buffer; reading past its end is a fault.
  unfoldable pub read_bytes : List ℕ → ℕ → Act S (List ℕ)
  read_bytes message bytes =
      if leb bytes (length message) then pure (take bytes message) else undefined

  -- `queue_element el; …; add_last_improved(client->queue, &el, sizeof(el))`
  unfoldable pub enqueue : List ℕ → ClientStructure → Act S ClientStructure
  enqueue content client = do
    queue ← deref (add_last client.queue (record { content = content; len = length content }))
    pure (record client { queue = queue })

  -- The body of the matching branch: `bytes` bytes of the message are sent or kept.
  unfoldable pub hand_over : List ℕ → ℕ → ClientStructure → TopicStructure → Act S ClientStructure
  hand_over message bytes client t =
      if client.online == 0
      then (if t.sf == 0
          then pure client
          else (do content ← read_bytes message bytes; enqueue content client))
      else (do
        content ← read_bytes message bytes
        send_and_wait client.sock content max_len_buf
        pure client)

  -- One round of the outer loop.
  unfoldable pub send_to : List ℕ → List ℕ → ℕ → ClientStructure → Act S ClientStructure
  send_to message topic bytes client = elim (find_topic topic client.subscribed_topics.items) [
    | none ↦ undefined
    | some none ↦ pure client
    | some (some t) ↦ hand_over message bytes client t
  ]

  unfoldable pub send_loop :
      List ℕ → List ℕ → ℕ → List ClientStructure → Act S (List ClientStructure)
  send_loop message topic bytes [] = pure []
  send_loop message topic bytes (c ∷ cs) = do
    c' ← send_to message topic bytes c
    cs' ← send_loop message topic bytes cs
    pure (c' ∷ cs')

  unfoldable pub send_data :
      List ℕ → List ℕ → View ClientStructure → ℕ → Act S (View ClientStructure)
  send_data message topic clients_container bytes = do
    cs ← send_loop message topic bytes clients_container.items
    pure (record clients_container { items = cs })

  -- `while (client->queue->head)`; an element longer than the buffer or than its data is a fault.
  unfoldable pub empty_loop : ℕ → ClientStructure → Act S ClientStructure
  empty_loop zero client = λ w. out_of_fuel
  empty_loop (suc k) client = elim (remove_first client.queue) [
    | none ↦ pure client
    | some (el, rest) ↦
        if leb el.len (length el.content)
        then (if leb el.len buflen
            then (do
              send_and_wait client.sock (take el.len el.content) buflen
              empty_loop k (record client { queue = rest }))
            else undefined)
        else undefined
  ]

  unfoldable pub empty_queue : ClientStructure → Act S ClientStructure
  empty_queue client = empty_loop (length client.queue.items + 1) client
