-- ===== src/Server/Bounded.antt =====
-- server_util.c: how far `fdmax` is raised by the connections and the commands, and their fuel.
use client_server_protocoale.Common.{
  ℕ, zero, suc, ◌+◌, ◌≤◌, Option, none, some, not, List, [], ◌∷◌, ℤ, pos, negsuc, inc, dec,
  pos_part, arith, ◌==◌, take, drop, get_elem?,
}
use client_server_protocoale.CString.{zeros, overlay}
use client_server_protocoale.LinkedList.View.{View, add_last}
use client_server_protocoale.Server.World.{
  Os, World, Address, Act, and_then, failed, type_of, deref, send, close,
}
use client_server_protocoale.Server.State.{ClientStructure, Server, get_client_by_sock}
use client_server_protocoale.Server.Connect.{
  request_id, admit_new, refuse, admit_again, admit, manage_connection_request, close_socket,
  close_loop, close_all_sockets,
}
use client_server_protocoale.Server.Command.{
  ClientToServerHdr, read_client_hdr, subscribe, the_client, exit_client, dispatch,
  manage_command_from_client,
}
use client_server_protocoale.Server.Within.{
  Within, Settles, bind-Settles, die_if-Settles, send-Settles, recv-Settles, accept-Settles,
  close-Settles, deref-Within, if-Within, assoc-Within,
}
use client_server_protocoale.Server.Settled.{empty_queue-Settles}

pub pos_part-inc : (z : ℤ) → pos_part (inc z) ≤ pos_part z + 1
pos_part-inc (pos n) = omega arith
pos_part-inc (negsuc zero) = omega arith
pos_part-inc (negsuc (suc n)) = omega arith

pos_part-dec : (z : ℤ) → pos_part (dec z) ≤ pos_part z
pos_part-dec (pos zero) = omega arith
pos_part-dec (pos (suc n)) = omega arith
pos_part-dec (negsuc n) = omega arith

-- `fdmax` is at most `n` more than it was.
abbrev pub Above : ℕ → Server → Server → Type 0
Above n s t = pos_part t.fdmax ≤ pos_part s.fdmax + n

module _ {S : Type 0} (os : Os S) where
  request_id-Settles :
      (sock : ℤ) (junk buf : List ℕ) (w : World S) → Settles (request_id os sock junk buf w)
  unfolding request_id
  request_id-Settles sock junk buf w =
      bind-Settles (λ b. Unit {0}) _ _ (send-Settles os sock (5 ∷ junk) w)
        (λ ret w1.
          bind-Settles (λ b. Unit {0}) _ _ (die_if-Settles (failed ret) w1)
            (λ u w2.
              bind-Settles (λ b. Unit {0}) _ _ (recv-Settles os sock 1551 w2)
                (λ (ret', reply) w3.
                  bind-Settles (λ b. Unit {0}) _ _ (die_if-Settles (failed ret') w3)
                    (λ u w4.
                      bind-Settles (λ b. Unit {0}) _ _
                        (die_if-Settles
                          (not (type_of (overlay reply (overlay (5 ∷ junk) buf)) == 2)) w4)
                        (λ u w5. tt)))))

  admit-Above :
      (sock : ℤ) (a : Address) (junk id buf : List ℕ) (o : Option ℕ) (s : Server) (w : World S)
      → Within (Above 1 s) (admit os sock a junk id buf o s w)
  unfolding admit admit_new refuse send close admit_again
  admit-Above sock a junk id buf none s w =
      deref-Within (Above 1 s) (add_last s.clients_container _) _ _ (λ u. pos_part-inc s.fdmax)
  admit-Above sock a junk id buf (some k) s w =
      deref-Within (Above 1 s) (get_elem? s.clients_container.items k) _ w (λ c.
        if-Within (Above 1 s) (c.online == 0) _ _ w
          (bind-Settles (Above 1 s) _ _
            (empty_queue-Settles os (record c { sock = sock; online = 1 }) _)
            (λ d w'. pos_part-inc s.fdmax))
          (omega arith))

  pub manage_connection_request-Above :
      (tcp : ℤ) (junk : List ℕ) (s : Server) (w : World S)
      → Within (Above 1 s) (manage_connection_request os tcp junk s w)
  unfolding manage_connection_request
  manage_connection_request-Above tcp junk s w =
      bind-Settles (Above 1 s) _ _ (accept-Settles os tcp w) (λ (sock, a) w1.
        bind-Settles (Above 1 s) _ _ (die_if-Settles (failed sock) w1) (λ u w2.
          bind-Settles (Above 1 s) _ _ (request_id-Settles sock junk s.buf w2)
            (λ buf w3. admit-Above sock a junk (take 10 (drop 52 buf)) buf _ s w3)))

  close_socket-Settles :
      (junk : List ℕ) (c : ClientStructure) (w : World S) → Settles (close_socket os junk c w)
  unfolding close_socket
  close_socket-Settles junk c w =
      bind-Settles (λ b. Unit {0}) _ _ (send-Settles os c.sock (4 ∷ junk) w)
        (λ ret w1.
          bind-Settles (λ b. Unit {0}) _ _ (recv-Settles os c.sock 1551 w1)
            (λ (ret', answer) w2.
              bind-Settles (λ b. Unit {0}) _ _
                (die_if-Settles (not (type_of (overlay answer (zeros 1551)) == 4)) w2)
                (λ u w3. close-Settles os c.sock w3)))

  close_loop-Settles :
      (junk : List ℕ) (cs : List ClientStructure) (w : World S) → Settles (close_loop os junk cs w)
  unfolding close_loop
  close_loop-Settles junk [] w = tt
  close_loop-Settles junk (c ∷ cs) w =
      bind-Settles (λ b. Unit {0}) _ _ (close_socket-Settles junk c w)
        (λ u w'. close_loop-Settles junk cs w')

  pub close_all_sockets-Settles :
      (junk : List ℕ) (v : View ClientStructure) (w : World S)
      → Settles (close_all_sockets os junk v w)
  unfolding close_all_sockets
  close_all_sockets-Settles junk v w = close_loop-Settles junk v.items w

  abbrev Kept : Server → ℤ × Server → Type 0
  Kept s r = Above 0 s r.1

  with_client :
      (s : Server) (i : ℤ) (k : ℕ × ClientStructure → Act S (ℤ × Server)) (w : World S)
      → ((n : ℕ) (c : ClientStructure) (w' : World S) → Within (Kept s) (k (n, c) w'))
      → Within (Kept s) (and_then (the_client i s w) k)
  unfolding the_client
  with_client s i k w h =
      assoc-Within (Kept s) (deref (get_client_by_sock s.clients_container.items i) w) _ k (
        deref-Within (Kept s) (get_client_by_sock s.clients_container.items i) _ w (λ n.
          assoc-Within (Kept s) (deref (get_elem? s.clients_container.items n) w) _ k
            (deref-Within (Kept s) (get_elem? s.clients_container.items n) _ w (λ c. h n c w))))

  exit_client-fdmax : (k : ℕ) (c : ClientStructure) (s : Server) → Above 0 s (exit_client k c s)
  unfolding exit_client
  exit_client-fdmax k c s = ground (arith, pos_part-dec s.fdmax)

  dispatch-Kept :
      (i : ℤ) (hdr : ClientToServerHdr) (s : Server) (w : World S)
      → Within (Kept s) (dispatch i hdr s w)
  unfolding dispatch
  dispatch-Kept i hdr s w =
      if-Within (Kept s) (hdr.type == 0) _ _ w
        (with_client s i _ w (λ k c w'.
          deref-Within (Kept s) (subscribe hdr.topic hdr.sf c.subscribed_topics) _ w'
            (λ v. omega arith)))
        (if-Within (Kept s) (hdr.type == 1) _ _ w (with_client s i _ w (λ k c w'. omega arith)) (
          if-Within (Kept s) (hdr.type == 3) _ _ w
            (with_client s i _ w (λ k c w'. exit_client-fdmax k c s)) (omega arith)))

  pub manage_command_from_client-Kept :
      (i : ℤ) (s : Server) (w : World S) → Within (Kept s) (manage_command_from_client os i s w)
  unfolding manage_command_from_client
  manage_command_from_client-Kept i s w =
      bind-Settles (Kept s) _ _ (recv-Settles os i 1551 w) (λ (ret, bytes) w'.
        let buf = overlay bytes (zeros 1551) in
        dispatch-Kept i (read_client_hdr buf) (record s { buf = buf }) w')
