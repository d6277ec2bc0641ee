-- ===== src/Streams/Channels.antt =====
-- Several writes of a gRPC stream of src/stream/ one after the other, and what they put into the
-- channel.
use rog.Prelude.{
  ap, ErrorKind, ◌≡◌, refl, ◌∙◌, false, List, [], ◌∷◌, ◌++◌, append-nil, append_assoc, Result, ok,
  other, ◌>>=◌,
}
use rog.Prelude.Word.{Bytes}
use rog.Prelude.Channel.{Sender, send}
use rog.RunStream.{arrives, fails, Stream}

-- The pieces of a connection that carries these payloads and then ends.
abbrev pub pieces : List Bytes → Stream
pieces [] = fails other "no more data" ∷ []
pieces (p ∷ ps) = arrives p ∷ pieces ps

abbrev pub map : {A B : Type 0} → (A → B) → List A → List B
map f [] = []
map f (x ∷ xs) = f x ∷ map f xs

abbrev pub sends : {P W : Type 0} → (P → W → Result W) → List P → W → Result W
sends write [] w = ok w
sends write (p ∷ ps) w = write p w >>= λ w. sends write ps w

-- A writer `W` with a channel, on which `write` sends what `f` makes of its argument.
module _ {P M W : Type 0} (k : ErrorKind) (f : W → P → M) (write : P → W → Result W)
    (out : W → Sender M) (put : Sender M → W → W)
    (writes : (p : P) (w : W) → write p w ≡ (send k (f w p) (out w) >>= λ s. ok (put s w)))
    (out-put : (s : Sender M) (w : W) → out (put s w) ≡ s)
    (f-put : (s : Sender M) (w : W) → f (put s w) ≡ f w) where
  -- While the receiver is there, every write succeeds, and the messages follow those sent before.
  pub sends-ok :
      (ps : List P) (w : W)
      → (out w).closed ≡ false
      → (w' : W) × (sends write ps w ≡ ok w') × ((out w').sent ≡ (out w).sent ++ map (f w) ps)
  unfolding send
  sends-ok [] w open' = (w, refl, rw append-nil refl)
  sends-ok (p ∷ ps) w open' =
      let s : Sender M = record { sent = (out w).sent ++ f w p ∷ []; closed = (out w).closed } in
      let (w', e, sent) = sends-ok ps (put s w) (rw (out-put s w) open') in
      (
        w',
        rw (writes p w, open') (rw open' at e),
        sent ∙ rw (out-put s w, f-put s w) (append_assoc (out w).sent (f w p ∷ []) (map (f w) ps)),
      )

pub map-map :
    {A B C : Type 0}
    → (g : B → C) (f : A → B) (xs : List A) → map g (map f xs) ≡ map (λ x. g (f x)) xs
map-map g f [] = refl
map-map g f (x ∷ xs) = ap (◌∷◌ (g (f x))) (map-map g f xs)
