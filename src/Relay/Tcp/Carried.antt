-- ===== src/Relay/Tcp/Carried.antt =====
-- src/object/tcp.rs: the bytes that a relay carries between two connections.
use rog.Prelude.{
  broken_pipe, ◌-◌, ℕ, ◌^◌, ◌<◌, ◌≡◌, ◌≢◌, refl, sym, ap, ◌∙◌, Option, none, some, List, [], ◌∷◌,
  ◌++◌, append-nil, append_assoc, ok, err, length, length-append, take, drop, take-append-drop,
  arith, >>=-eq-ok, Writer, write_all, leb, Bool-cases, inl, inr,
}
use rog.Prelude.Word.{Bytes}
use rog.RunStream.{Stream, arrives, fails, leftover, read}
use rog.RunStream.Exact.{bytes-leftover, bytes}
use rog.Streams.Channels.{sends}
use rog.Relay.Copy.{passes, Ends, Loop, u64, Relay, Side, relay}
use rog.Relay.Copy.Order.{Took, nothing, passed, left_out, total, Copied}
use rog.Relay.Copy.Runs.{begin, relay_copies}
use rog.Relay.Tcp.{
  tcp_io_buffer_size, copying, eof_ends, with_cache, s2c, c2s, handle_tcp_connection,
}

abbrev pub flatten : List Bytes → Bytes
flatten [] = []
flatten (x ∷ xs) = x ++ flatten xs

flatten-append : (xs ys : List Bytes) → flatten (xs ++ ys) ≡ flatten xs ++ flatten ys
flatten-append [] ys = refl
flatten-append (x ∷ xs) ys =
    rw (flatten-append xs ys) (sym (append_assoc x (flatten xs) (flatten ys)))

read-bytes :
    (n : ℕ) (s s' : Stream) (got : Bytes) → read n s ≡ ok (got, s') → bytes s ≡ got ++ bytes s'
unfolding read
read-bytes n [] s' got e = let g : got ≡ [] = cc in let r : s' ≡ [] = cc in rw (g, r) refl
read-bytes n (arrives bs ∷ s) s' got e =
    let g : take n bs ≡ got = cc in
    let r : leftover (drop n bs) s ≡ s' = cc in
    rw (sym g, sym r, bytes-leftover (drop n bs) s)
      (ap (λ x. x ++ bytes s) (sym (take-append-drop n bs))
        ∙ append_assoc (take n bs) (drop n bs) (bytes s))
read-bytes n (fails k m ∷ s) s' got e = absurd (cc)

write_all-written :
    (x : Bytes) (w w' : Writer) → write_all x w ≡ ok w' → w'.written ≡ w.written ++ x
unfolding write_all
write_all-written x w w' e = elim (Bool-cases (leb (length x) w.room)) [
  | inl b ↦
      let f : ok (record w { written = w.written ++ x; room = w.room - length x }) ≡ ok w' =
        (rw b at e) in
      let g : record w { written = w.written ++ x; room = w.room - length x } ≡ w' = cc in
      rw (sym g) refl
  | inr b ↦ absurd (let f : err broken_pipe "broken pipe" ≡ ok w' = (rw b at e) in cc)
]

sends-written :
    (xs : List Bytes) (w w' : Writer)
    → sends write_all xs w ≡ ok w'
    → w'.written ≡ w.written ++ flatten xs
sends-written [] w w' e = let f : w ≡ w' = cc in rw (sym f) (sym (append-nil w.written))
sends-written (x ∷ xs) w w' e =
    let (w₁, first, more) = >>=-eq-ok (write_all x w) (λ w. sends write_all xs w) e in
    sends-written xs w₁ w' more
    ∙ rw (write_all-written x w w₁ first) (append_assoc w.written x (flatten xs))

abbrev pub carrying : Ends Stream Writer Bytes
carrying = copying read write_all

eof_ends-cases : (x : Bytes) → eof_ends x ≢ passes → x ≡ []
eof_ends-cases [] h = refl
eof_ends-cases (b ∷ x) h = absurd (h refl)

Took-bytes :
    {s : Stream} {xs : List Bytes} {s' : Stream}
    → Took carrying s xs s'
    → bytes s ≡ flatten xs ++ bytes s'
Took-bytes nothing = refl
Took-bytes {s' = s'} (passed {xs = xs} {r = r} a t e p) =
    Took-bytes t
    ∙ rw
        (
          read-bytes tcp_io_buffer_size r s' a e,
          flatten-append xs (a ∷ []),
          append-nil a,
          append_assoc (flatten xs) a (bytes s'),
        )
        refl
Took-bytes {s' = s'} (left_out {r = r} a t e p) =
    Took-bytes t ∙ rw (read-bytes tcp_io_buffer_size r s' a e, eof_ends-cases a p) refl

total-flatten : (xs : List Bytes) → total carrying xs ≡ length (flatten xs)
total-flatten [] = refl
total-flatten (x ∷ xs) = omega (arith, total-flatten xs, length-append x (flatten xs))

-- A loop wrote `x`, a part of what its source brought, behind `sent`, which was counted.
pub record Carried (source : Stream) (w : Writer) (sent : Bytes) (l : Loop carrying) : Type 0 where
  pub x : Bytes
  pub more : Bytes
  pub from : bytes source ≡ x ++ more
  pub into : l.writer.written ≡ w.written ++ sent ++ x
  pub counts : l.counted ≡ u64 (length (sent ++ x))

Copied-Carried :
    (source : Stream) (w w' : Writer) (sent : Bytes) (n : ℕ) (l : Loop carrying)
    → w'.written ≡ w.written ++ sent
    → n ≡ u64 (length sent)
    → Copied carrying source w' n l
    → Carried source w sent l
Copied-Carried source w w' sent n l e m c = record {
  x = flatten l.put;
  more = flatten c.rest ++ bytes l.reader;
  from =
      Took-bytes c.took
      ∙ rw (c.in_order, flatten-append l.put c.rest)
          (append_assoc (flatten l.put) (flatten c.rest) (bytes l.reader));
  into = sends-written l.put w' l.writer c.wrote ∙ rw e refl;
  counts = omega (arith, m, c.counts, total-flatten l.put, length-append sent (flatten l.put));
}

abbrev pub cached : Option Bytes → Bytes
cached none = []
cached (some c) = c

with_cache-written :
    (cache : Option Bytes) (w w' : Writer) (n : ℕ)
    → with_cache write_all cache w ≡ ok (w', n)
    → (w'.written ≡ w.written ++ cached cache) × (n ≡ u64 (length (cached cache)))
with_cache-written none w w' n e =
    let f : w ≡ w' = cc in
    let g : 0 ≡ n = cc in (rw (sym f) (sym (append-nil w.written)), rw (sym g) refl)
with_cache-written (some c) w w' n e =
    let (w₁, first, more) = >>=-eq-ok (write_all c w) (λ w. ok (w, u64 (length c))) e in
    let f : w₁ ≡ w' = cc in
    let g : u64 (length c) ≡ n = cc in (rw (sym f) (write_all-written c w w₁ first), sym g)

-- Two connections whose bytes arrive in pieces, or fail, and which take what they have room for. If
-- the first write of the cached payload succeeds, then after any schedule of the two loops the client
-- has been sent the cached payload and a beginning of what the server sent, and `tx` is their length
-- modulo 2 ^ 64; the server has been sent a beginning of what the client sent, and `rx` is its length
-- modulo 2 ^ 64.
pub tcp_relayed :
    (cache : Option Bytes) (client_r server_r : Stream) (client_w server_w : Writer)
    (schedule : List (Side (s2c read write_all read write_all) (c2s read write_all read write_all)))
    (s : Relay (s2c read write_all read write_all) (c2s read write_all read write_all))
    → handle_tcp_connection read write_all read write_all cache
        (client_r, client_w)
        (server_r, server_w)
      ≡ ok s
    → let s' =
        relay (s2c read write_all read write_all) (c2s read write_all read write_all) s schedule in
      Carried server_r client_w (cached cache) s'.left × Carried client_r server_w [] s'.right
unfolding handle_tcp_connection
tcp_relayed cache client_r server_r client_w server_w schedule s e =
    let ((w, n), first, more) = >>=-eq-ok (with_cache write_all cache client_w) _ e in
    let (wrote, counts) = with_cache-written cache client_w w n first in
    let here : begin carrying carrying server_r w n client_r server_w 0 ≡ s = cc in
    let bound : n < 2 ^ 64 = omega arith in
    let (l, r) =
      relay_copies carrying carrying server_r w n client_r server_w 0 schedule bound
        (omega arith) in
    let s' = relay carrying carrying s schedule in
    (
      Copied-Carried server_r client_w w (cached cache) n s'.left wrote counts (rw here at l),
      Copied-Carried client_r server_w server_w [] 0 s'.right (sym (append-nil server_w.written))
          refl (rw here at r),
    )
