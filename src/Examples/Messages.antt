-- ===== src/Examples/Messages.antt =====
-- Datagrams of the four types, a header, and powers of ten.
use client_server_protocoale.Common.{
  ℕ, ◌≡◌, refl, some, none, List, [], ◌∷◌, ◌++◌, ◌^◌, negsuc, arith, true,
}
use client_server_protocoale.CString.{zeros, NoNul}
use client_server_protocoale.Wire.Bytes.{be32}
use client_server_protocoale.Subscriber.Display.{int, short_real, float, string, my_pow}
use client_server_protocoale.Subscriber.Relay.{datagram, relay, shown}
use client_server_protocoale.Subscriber.Values.{
  relay-int, relay-short_real, relay-float, relay-string,
}
use client_server_protocoale.Subscriber.Strings.{relay-string_overflow}
use client_server_protocoale.Subscriber.Power.{my_pow_lem}
use client_server_protocoale.Examples.Systems.{address}

abbrev name : List ℕ
name = 97 ∷ 98 ∷ []

name-NoNul : NoNul name
name-NoNul = (omega arith, (omega arith, tt))

relay-int_example :
    relay (datagram name 0 (1 ∷ be32 7)) (zeros 49) address [] []
    ≡ shown name address (some (int (negsuc 6)))
relay-int_example =
    relay-int name name-NoNul (omega arith) (zeros 49) [] [] address (omega arith) (omega arith)
      (omega arith) 1 7 (omega arith)

relay-short_real_example :
    relay (datagram name 1 (9 ∷ 41 ∷ [])) (zeros 49) address [] []
    ≡ shown name address (some (short_real 2345 100))
relay-short_real_example =
    relay-short_real name name-NoNul (omega arith) (zeros 49) [] [] address (omega arith)
      (omega arith) (omega arith) 9 41

relay-float_example :
    relay (datagram name 2 (1 ∷ be32 1234 ++ 2 ∷ [])) (zeros 49) address [] []
    ≡ shown name address (some (float true 1234 (10 ^ 2)))
relay-float_example =
    relay-float name name-NoNul (omega arith) (zeros 49) [] [] address (omega arith) (omega arith)
      (omega arith) 1 1234 2 (omega arith) (omega arith)

relay-string_example :
    relay (datagram name 3 (104 ∷ 105 ∷ [])) (zeros 49) address [] (0 ∷ [])
    ≡ shown name address (some (string (104 ∷ 105 ∷ [])))
relay-string_example =
    relay-string name name-NoNul (omega arith) (zeros 49) [] (0 ∷ []) address (omega arith)
      (omega arith) (omega arith) (104 ∷ 105 ∷ []) (104 ∷ 105 ∷ []) []
      (omega arith, (omega arith, tt)) refl (omega arith)

my_pow_lem_example : my_pow 10 ≡ none
my_pow_lem_example = my_pow_lem 10

relay-string_overflow_example : relay (datagram name 3 (zeros 1488)) (zeros 49) address [] [] ≡ none
relay-string_overflow_example =
    relay-string_overflow name name-NoNul (omega arith) (zeros 1488) (zeros 49) [] [] address
      (omega arith) (omega arith)
