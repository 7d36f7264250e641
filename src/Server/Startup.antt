-- ===== src/Server/Startup.antt =====
-- server.c: `main` up to its loop. The calls that set up the sockets are parameters; unlike those
-- of the loop they are not written to the log.
use client_server_protocoale.Common.{ℕ, ◌-◌, ◌%◌, List, [], ◌∷◌, ℤ, pos, negsuc, eqz, ltz}
use client_server_protocoale.Wire.Bytes.{swap16}
use client_server_protocoale.Server.World.{Act, done, died, pure, ◌>>=◌, ◌>>◌, die_if, failed}
use client_server_protocoale.Server.State.{Server}
use client_server_protocoale.Server.Main.{start}

pub data SocketType : Type 0 where
  sock_stream : SocketType
  sock_dgram : SocketType

-- The calls of the set-up: `socket`, `bind` with the port in network order, `listen` with the length
-- of the queue, and the conversion `atoi` of a string.
record Calls (S : Type 0) : Type 0 where
  socket : S → SocketType → ℤ × S
  bind : S → ℤ → ℕ → ℤ × S
  listen : S → ℤ → ℕ → ℤ × S
  atoi : List ℕ → ℤ

-- A call of the system that returns an `int`.
abbrev pub call : {S : Type 0} → (S → ℤ × S) → Act S ℤ
call f w = let r = f w.system in done r.0 (record w { system = r.1 })

-- `(uint16_t)` of an `int`
unfoldable pub to_uint16 : ℤ → ℕ
to_uint16 (pos n) = n % 65536
to_uint16 (negsuc n) = 65535 - n % 65536

-- The two sockets, and the server's state at the top of the loop; `argv` begins with the program's
-- name.
unfoldable start_up : {S : Type 0} → Calls S → List (List ℕ) → Act S (ℤ × ℤ × Server)
start_up calls (file ∷ argument ∷ []) = do
  sockfd_tcp ← call (λ s. calls.socket s sock_stream)
  die_if (ltz sockfd_tcp (pos 0))
  let portno = calls.atoi argument
  die_if (eqz portno (pos 0))
  let sin_port = swap16 (to_uint16 portno)
  ret ← call (λ s. calls.bind s sockfd_tcp sin_port)
  die_if (ltz ret (pos 0))
  ret' ← call (λ s. calls.listen s sockfd_tcp 5)
  die_if (ltz ret' (pos 0))
  sockfd_udp ← call (λ s. calls.socket s sock_dgram)
  die_if (failed sockfd_udp)
  ret'' ← call (λ s. calls.bind s sockfd_udp sin_port)
  die_if (ltz ret'' (pos 0))
  pure (sockfd_tcp, sockfd_udp, start sockfd_tcp sockfd_udp)
start_up calls argv = λ w. died w
