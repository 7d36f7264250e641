-- ===== src/Server/Replay.antt =====
-- `empty_queue`: a client that is back gets what was kept for it, in the order in which it came.
use client_server_protocoale.Common.{
  ℕ, zero, suc, ◌+◌, ◌≤◌, ◌<◌, ◌≡◌, ◌∙◌, refl, sym, ap, List, [], ◌∷◌, ◌++◌, ℤ, arith, length, take,
  le→leb, append-nil, append_assoc,
}
use client_server_protocoale.LinkedList.View.{View}
use client_server_protocoale.LinkedList.ViewLaws.{remove_first-cons, remove_first-nil}
use client_server_protocoale.Server.World.{Os, World, Outcome, done}
use client_server_protocoale.Server.State.{QueueElement, ClientStructure}
use client_server_protocoale.Server.Send.{empty_loop, empty_queue}
use client_server_protocoale.Server.Exchange.{
  Reliable, exchanged, send_and_wait-exchanged, packets, packets-exchanged,
}

-- Elements that fit their data and the buffer of `empty_queue`.
abbrev pub AllFit : List QueueElement → Type 0
AllFit [] = Unit {0}
AllFit (el ∷ els) = (el.len ≤ length el.content) × (el.len ≤ 1600) × AllFit els

-- The packets for a client's elements.
abbrev pub kept_for : ℤ → List QueueElement → List (ℤ × List ℕ)
kept_for sock [] = []
kept_for sock (el ∷ els) = (sock, take el.len el.content) ∷ kept_for sock els

-- The outcome: an empty queue, nothing else of the client changed, and the elements sent.
abbrev pub Emptied :
    {S : Type 0}
    → ClientStructure
    → List QueueElement
    → World S
    → Outcome S ClientStructure
    → Type 0
Emptied client els w r =
    (q : View QueueElement) × (w' : World _) × (r ≡ done (record client { queue = q }) w')
    × (q.items ≡ [])
    × (packets w'.log ≡ packets w.log ++ kept_for client.sock els)

module _ {S : Type 0} (os : Os S) (ok : Reliable os) where
  empty_loop-Emptied :
      (k : ℕ) (els : List QueueElement) (client : ClientStructure) (w : World S)
      → client.queue.items ≡ els
      → AllFit els
      → length els < k
      → Emptied client els w (empty_loop os k client w)
  unfolding empty_loop
  empty_loop-Emptied zero els client w e fit fuel = absurd (omega arith)
  empty_loop-Emptied (suc k) [] client w e fit fuel =
      (client.queue, w, rw (remove_first-nil client.queue e, empty_loop), e, sym (append-nil _))
  empty_loop-Emptied (suc k) (el ∷ els) client w e fit fuel =
      let (rest, taken, left) = remove_first-cons el els client.queue e in
      let client' = record client { queue = rest } in
      let w1 = exchanged os client.sock (take el.len el.content) 1600 w in
      let (q, w', run, none_left, log) =
        empty_loop-Emptied k els client' w1 left fit.2 (omega arith) in
      (
        q,
        w',
        rw
            (
              taken,
              empty_loop,
              le→leb el.len (length el.content) fit.0,
              le→leb el.len 1600 fit.1,
              send_and_wait-exchanged os client.sock (take el.len el.content) 1600 w ok,
            )
            run,
        none_left,
        log
            ∙ ap (λ p. p ++ kept_for client.sock els)
                (packets-exchanged os client.sock (take el.len el.content) 1600 w)
            ∙ append_assoc (packets w.log) _ _,
      )

  -- Where no call fails, every answer is an ACK and the elements fit their data and the buffer,
  -- `empty_queue` ends with an empty queue and the rest of the client as it was, and has sent the
  -- elements to the client's socket in the order of the queue.
  pub empty_queue-Emptied :
      (client : ClientStructure) (w : World S)
      → AllFit client.queue.items
      → Emptied client client.queue.items w (empty_queue os client w)
  unfolding empty_queue
  empty_queue-Emptied client w fit =
      empty_loop-Emptied (length client.queue.items + 1) client.queue.items client w refl fit
        (omega arith)
