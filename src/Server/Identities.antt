-- ===== src/Server/Identities.antt =====
-- What `manage_connection_request` and `manage_command_from_client` do to the ids that are
-- registered.
use client_server_protocoale.Common.{
  ℕ, ◌≡◌, ◌⊎◌, inl, inr, refl, sym, ap, subst, Option, none, some, false, List, [], ◌∷◌, ◌++◌, ℤ,
  arith, get_elem?, ◌==◌, take, drop,
}
use client_server_protocoale.CString.{strncmp_eq, zeros, overlay}
use client_server_protocoale.LinkedList.View.{View, add_last, append_to}
use client_server_protocoale.Server.World.{
  Os, World, Address, Act, and_then, failed, die_if, deref, send, recv, accept, close,
}
use client_server_protocoale.Server.State.{
  ClientStructure, Server, get_client_by_id, get_client_by_sock,
}
use client_server_protocoale.Server.Connect.{
  request_id, admit_new, refuse, admit_again, admit, manage_connection_request,
}
use client_server_protocoale.Server.Command.{
  ClientToServerHdr, read_client_hdr, subscribe, put_client, the_client, exit_client, dispatch,
  manage_command_from_client,
}
use client_server_protocoale.Server.After.{After, bind, bind_any, bind_deref, bind_assoc, if_both}
use client_server_protocoale.Server.Registry.{ids, ids-set, empty_queue-id}

-- Two ids are one where `strncmp` over ten bytes says so.
abbrev pub NoneOf : List ℕ → List (List ℕ) → Type 0
NoneOf id [] = Unit {0}
NoneOf id (x ∷ xs) = (strncmp_eq 10 x id ≡ false) × NoneOf id xs

abbrev pub AllDiffer : List ℕ → List (List ℕ) → Type 0
AllDiffer x [] = Unit {0}
AllDiffer x (y ∷ ys) = (strncmp_eq 10 x y ≡ false) × AllDiffer x ys

abbrev pub AllDistinct : List (List ℕ) → Type 0
AllDistinct [] = Unit {0}
AllDistinct (x ∷ xs) = AllDiffer x xs × AllDistinct xs

-- How the registry may change.
abbrev pub Grows : List ClientStructure → List ClientStructure → Type 0
Grows cs ds =
    (ids ds ≡ ids cs) ⊎ ((id : List ℕ) × NoneOf id (ids cs) × (ids ds ≡ ids cs ++ id ∷ []))

AllDiffer-append :
    (x id : List ℕ) (xs : List (List ℕ))
    → AllDiffer x xs
    → strncmp_eq 10 x id ≡ false
    → AllDiffer x (xs ++ id ∷ [])
AllDiffer-append x id [] d e = (e, tt)
AllDiffer-append x id (y ∷ ys) d e = (d.0, AllDiffer-append x id ys d.1 e)

AllDistinct-append :
    (id : List ℕ) (xs : List (List ℕ)) → AllDistinct xs → NoneOf id xs → AllDistinct (xs ++ id ∷ [])
AllDistinct-append id [] d n = (tt, tt)
AllDistinct-append id (x ∷ xs) d n =
    (AllDiffer-append x id xs d.0 n.0, AllDistinct-append id xs d.1 n.1)

pub AllDistinct-Grows :
    (cs ds : List ClientStructure) → Grows cs ds → AllDistinct (ids cs) → AllDistinct (ids ds)
AllDistinct-Grows cs ds (inl e) d = subst AllDistinct (sym e) d
AllDistinct-Grows cs ds (inr (id, new, e)) d =
    subst AllDistinct (sym e) (AllDistinct-append id (ids cs) d new)

get_client_by_id-none :
    (cs : List ClientStructure) (id : List ℕ) → get_client_by_id cs id ≡ none → NoneOf id (ids cs)
unfolding get_client_by_id
get_client_by_id-none [] id e = tt
get_client_by_id-none (c ∷ cs) id e = ground (arith, get_client_by_id-none cs id)

ids-append :
    (cs : List ClientStructure) (c : ClientStructure) → ids (cs ++ c ∷ []) ≡ ids cs ++ c.id ∷ []
ids-append [] c = refl
ids-append (b ∷ cs) c = ap (◌∷◌ b.id) (ids-append cs c)

ids-add_last :
    (v u : View ClientStructure) (c : ClientStructure)
    → add_last v c ≡ some u
    → ids u.items ≡ ids v.items ++ c.id ∷ []
unfolding add_last append_to
ids-add_last v u c e = go v.items e
  where
    go : (cs : List ClientStructure) → append_to cs v c ≡ some u → ids u.items ≡ ids cs ++ c.id ∷ []
    go [] h = cc
    go (b ∷ cs) h = ground (arith, ids-append cs c)

module _ {S : Type 0} (os : Os S) where
  abbrev From : Server → Server → Type 0
  From s t = Grows s.clients_container.items t.clients_container.items

  admit_new-Grows :
      (sock : ℤ) (a : Address) (id buf : List ℕ) (s : Server) (w : World S)
      → NoneOf id (ids s.clients_container.items)
      → After (From s) (admit_new os sock a id buf s w)
  unfolding admit_new
  admit_new-Grows sock a id buf s w new =
      bind_deref (From s) (add_last s.clients_container _) _ _
        (λ u e. inr (id, new, ids-add_last s.clients_container u _ e))

  refuse-Grows :
      (sock : ℤ) (junk : List ℕ) (c : ClientStructure) (s : Server) (w : World S)
      → After (From s) (refuse os sock junk c s w)
  unfolding refuse send close
  refuse-Grows sock junk c s w = inl refl

  admit_again-Grows :
      (sock : ℤ) (a : Address) (buf : List ℕ) (k : ℕ) (c : ClientStructure) (s : Server)
      (w : World S)
      → get_elem? s.clients_container.items k ≡ some c
      → After (From s) (admit_again os sock a buf k c s w)
  unfolding admit_again
  admit_again-Grows sock a buf k c s w e =
      bind (λ d. d.id ≡ c.id) (From s) _ _
        (empty_queue-id os (record c { sock = sock; online = 1 }) _)
        (λ d w' same. inl (ids-set s.clients_container.items k c d e same))

  admit-Grows :
      (sock : ℤ) (a : Address) (junk id buf : List ℕ) (o : Option ℕ) (s : Server) (w : World S)
      → get_client_by_id s.clients_container.items id ≡ o
      → After (From s) (admit os sock a junk id buf o s w)
  unfolding admit
  admit-Grows sock a junk id buf none s w e =
      admit_new-Grows sock a id buf s w (get_client_by_id-none s.clients_container.items id e)
  admit-Grows sock a junk id buf (some k) s w e =
      bind_deref (From s) (get_elem? s.clients_container.items k) _ w (λ c found.
        if_both (From s) (c.online == 0) _ _ w (admit_again-Grows sock a buf k c s w found)
          (refuse-Grows sock junk c s w))

  pub manage_connection_request-Grows :
      (tcp : ℤ) (junk : List ℕ) (s : Server) (w : World S)
      → After (From s) (manage_connection_request os tcp junk s w)
  unfolding manage_connection_request
  manage_connection_request-Grows tcp junk s w =
      bind_any (From s) (accept os tcp w) _ (λ (sock, a) w1.
        bind_any (From s) (die_if (failed sock) w1) _ (λ u w2.
          bind_any (From s) (request_id os sock junk s.buf w2) _
            (λ buf w3. admit-Grows sock a junk (take 10 (drop 52 buf)) buf _ s w3 refl)))

  -- The commands change one client, and not its id.
  put_client-ids :
      (s : Server) (k : ℕ) (c d : ClientStructure)
      → get_elem? s.clients_container.items k ≡ some c
      → d.id ≡ c.id
      → ids (put_client s k d).clients_container.items ≡ ids s.clients_container.items
  put_client-ids s k c d e same = ids-set s.clients_container.items k c d e same

  abbrev Same : Server → Server → Type 0
  Same s t = ids t.clients_container.items ≡ ids s.clients_container.items

  with_client :
      (s : Server) (i : ℤ) (k : ℕ × ClientStructure → Act S (ℤ × Server)) (w : World S)
      → ((n : ℕ) (c : ClientStructure) (w' : World S)
          → get_elem? s.clients_container.items n ≡ some c
          → After (λ r. Same s r.1) (k (n, c) w'))
      → After (λ r. Same s r.1) (and_then (the_client i s w) k)
  unfolding the_client
  with_client s i k w h =
      bind_assoc (λ r. Same s r.1) (deref (get_client_by_sock s.clients_container.items i) w) _ k
        (bind_deref (λ r. Same s r.1) (get_client_by_sock s.clients_container.items i) _ w
          (λ n known.
            bind_assoc (λ r. Same s r.1) (deref (get_elem? s.clients_container.items n) w) _ k
              (bind_deref (λ r. Same s r.1) (get_elem? s.clients_container.items n) _ w
                (λ c found. h n c w found))))

  pub dispatch-ids :
      (i : ℤ) (hdr : ClientToServerHdr) (s : Server) (w : World S)
      → After (λ r. Same s r.1) (dispatch i hdr s w)
  unfolding dispatch exit_client
  dispatch-ids i hdr s w =
      if_both P (hdr.type == 0) _ _ w
        (with_client s i _ w (λ k c w' e.
          bind_deref P (subscribe hdr.topic hdr.sf c.subscribed_topics) _ w'
            (λ v e'. put_client-ids s k c _ e refl)))
        (if_both P (hdr.type == 1) _ _ w
          (with_client s i _ w (λ k c w' e. put_client-ids s k c _ e refl))
          (if_both P (hdr.type == 3) _ _ w
            (with_client s i _ w (λ k c w' e. put_client-ids s k c _ e refl)) refl))
    where
      P : ℤ × Server → Type 0
      P r = Same s r.1

  pub manage_command_from_client-ids :
      (i : ℤ) (s : Server) (w : World S)
      → After (λ r. Same s r.1) (manage_command_from_client os i s w)
  unfolding manage_command_from_client
  manage_command_from_client-ids i s w =
      bind_any (λ r. Same s r.1) (recv os i 1551 w) _
        (λ (ret, bytes) w'.
          let buf = overlay bytes (zeros 1551) in
          dispatch-ids i (read_client_hdr buf) (record s { buf = buf }) w')
