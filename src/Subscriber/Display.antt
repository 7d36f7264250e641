-- ===== src/Subscriber/Display.antt =====
-- What the subscriber shows for a packet: `my_pow` and `extract_server_to_client_header` of
-- subscriber_util.c, and the `switch` of subscriber.c. `none` is a use of memory, or an overflow of
-- an `int`, that C leaves undefined.
use client_server_protocoale.Common.{
  ℕ, zero, suc, ◌+◌, ◌-◌, ◌*◌, ◌^◌, Option, none, some, Bool, not, List, [], ◌∷◌, ◌++◌, ℤ, pos,
  negsuc, ltb, leb, ◌==◌, if◌then◌else◌, get_or, take, drop, length,
}
use client_server_protocoale.CString.{strlen}
use client_server_protocoale.Wire.Bytes.{read_be32, swap32, swap16}
use client_server_protocoale.Wire.Header.{ServerToClientHdr, decode_header}

-- The loop of `my_pow`: `power` rounds are left. A product past the largest `int` is an overflow.
unfoldable pub pow_loop : ℕ → ℕ → Option ℕ
pow_loop zero res = some res
pow_loop (suc n) res =
    let rest = pow_loop n (res * 10) in if ltb (res * 10) (2 ^ 31) then rest else none

unfoldable pub my_pow : ℕ → Option ℕ
unfolding pow_loop
my_pow power = pow_loop power 1

-- The value of a word that is read as an `int`.
unfoldable pub signed32 : ℕ → ℤ
signed32 w = if ltb w (2 ^ 31) then pos w else negsuc (2 ^ 32 - w - 1)

pub record Extracted : Type 0 where
  pub val : List ℕ
  pub adr : ℕ
  pub udp_port : ℕ

-- The payload of a packet in `buffer`, with the sender's address and port in the host's order.
unfoldable pub extract : List ℕ → ServerToClientHdr → Option Extracted
extract buffer sv_cl =
    if leb (64 + sv_cl.bytes) (length buffer)
    then some (record {
      val = take sv_cl.bytes (drop 64 buffer);
      adr = swap32 sv_cl.udp_ip;
      udp_port = swap16 sv_cl.udp_port;
    })
    else none

-- The bytes of an array up to its NUL.
abbrev pub string_of : List ℕ → List ℕ
string_of s = take (strlen s) s

-- The value of a message. A `double` that the code computes is given by what it is computed from:
-- `short_real n d` is n / d, and `float sign n d` is n / d, negated where `sign` is set.
pub data Value : Type 0 where
  int : ℤ → Value
  short_real : ℕ → ℕ → Value
  float : Bool → ℕ → ℕ → Value
  string : List ℕ → Value

-- A line on the standard output.
pub record Line : Type 0 where
  pub adr : ℕ
  pub udp_port : ℕ
  pub topic : List ℕ
  pub value : Value

-- `(double)(temp_int) / my_pow(pow)`, with its sign
abbrev pub scaled : Bool → ℕ → Option ℕ → Option Value
scaled sign temp_int none = none
scaled sign temp_int (some divisor) = some (float sign temp_int divisor)

unfoldable pub float_value : List ℕ → Option Value
float_value val =
    scaled (not (get_or val 0 0 == 0)) (read_be32 (drop 1 val)) (my_pow (get_or val 5 0))

-- The value in a payload of a given type. `behind` is what lies in memory behind the payload: a
-- string is printed up to a NUL, and the payload need not hold one. The words of cases 0 to 2 are
-- read from a block that is as long as the header says; shorter ones are read past their end.
unfoldable pub value_of : ℕ → List ℕ → List ℕ → Option Value
value_of type val behind =
    if type == 0
    then (if leb 4 (length val) then some (int (signed32 (read_be32 val))) else none)
    else if type == 1
    then (if leb 2 (length val)
        then some (short_real (get_or val 0 0 * 256 + get_or val 1 0) 100)
        else none)
    else if type == 2
    then (if leb 6 (length val) then float_value val else none)
    else some (string (string_of (val ++ behind)))

-- The line that a branch of the `switch` prints.
abbrev pub line_of : ServerToClientHdr → Extracted → Option Value → Option (Option Line)
line_of sv_cl x none = none
line_of sv_cl x (some v) = some (
    some (record {
      adr = x.adr;
      udp_port = x.udp_port;
      topic = string_of (sv_cl.topic ++ 0 ∷ []);
      value = v;
    }))

abbrev pub show_extracted : ServerToClientHdr → List ℕ → Option Extracted → Option (Option Line)
show_extracted sv_cl behind none = none
show_extracted sv_cl behind (some x) = line_of sv_cl x (value_of sv_cl.type x.val behind)

unfoldable pub show_header : ServerToClientHdr → List ℕ → List ℕ → Option (Option Line)
unfolding extract value_of
show_header sv_cl buffer behind =
    if ltb sv_cl.type 4 then show_extracted sv_cl behind (extract buffer sv_cl) else some none

-- The packet that `recv` left in `buffer`: `none` is undefined, `some none` a type that shows
-- nothing.
unfoldable pub show_packet : List ℕ → List ℕ → Option (Option Line)
unfolding show_header
show_packet buffer behind = show_header (decode_header buffer) buffer behind
