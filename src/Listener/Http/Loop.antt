-- ===== src/Listener/Http/Loop.antt =====
-- src/listener/http.rs: a server does not take a request that it has forwarded itself.
use rog.Prelude.{
  ◌≤◌, ◌≡◌, refl, ap, ◌∙◌, true, false, Bool-cases, inl, inr, Option, none, some, [], ◌∷◌, ◌++◌,
  append_assoc, arith, Result, ok, err, other, ◌⊎◌, length, take_all, drop_all, ◌>>=◌, >>=-eq-ok,
  ok_or, invalid_data, String, Option-cases,
}
use rog.Prelude.Word.{Bytes, codes}
use rog.RunStream.{arrives, Stream, read}
use rog.Address.{RunAddr}
use rog.Text.Search.{is_prefix, contains, find, split_lines, to_lowercase}
use rog.Text.Lines.{Line, Lacks, Lacks-Line, split_lines-Line, find-Line, find-FoundLine}
use rog.Listener.Connection.{Connection, write}
use rog.Listener.Http.{
  Urls, crlf, first, target, is_loop, any_loop, via_line, or_empty, with_via, established,
  answer_or_forward, handle, handshake, head_and_body,
}
use rog.Listener.Http.Head.{
  head_of, head_of-Line, head_of-next, head_and_body-head, head_and_body-cases,
}

abbrev via : Bytes → Bytes
via server_id = codes "Via: 1.1 " ++ server_id

is_prefix_self : (p : Bytes) → is_prefix p p ≡ true
unfolding is_prefix
is_prefix_self [] = refl
is_prefix_self (b ∷ p) = ground (arith, is_prefix_self p)

contains-append : (a p : Bytes) → contains p (a ++ p) ≡ true
unfolding contains
contains-append [] [] = refl
contains-append [] (b ∷ p) =
    let e : is_prefix (b ∷ p) (b ∷ p) ≡ true = is_prefix_self (b ∷ p) in rw e refl
contains-append (a ∷ rest) p = rw (contains-append rest p) (ground arith)

via-is_loop : (server_id : Bytes) → is_loop server_id (via server_id) ≡ true
unfolding is_loop to_lowercase is_prefix
via-is_loop server_id = contains-append (codes "Via: 1.1 ") server_id

via-Lacks : (server_id : Bytes) → Lacks 13 server_id → Lacks 13 (via server_id)
via-Lacks server_id l = ground arith

-- The lines of a head with the line of this server behind the first one.
any_loop-via :
    (server_id f x : Bytes)
    → Line f
    → Lacks 13 server_id
    → any_loop server_id (split_lines (f ++ (crlf ++ (via server_id ++ (crlf ++ x))))) ≡ true
unfolding any_loop
any_loop-via server_id f x h l = rw (split_lines-Line f (via server_id ++ (crlf ++ x)) h) (
    rw (split_lines-Line (via server_id) x (Lacks-Line (via server_id) (via-Lacks server_id l)))
      (rw (via-is_loop server_id) (ground arith)))

ok_or-eq-ok :
    {A : Type 0} (o : Option A) (m : String) (a : A) → ok_or o invalid_data m ≡ ok a → o ≡ some a
ok_or-eq-ok none m a e = absurd (cc)
ok_or-eq-ok (some b) m a e = cc

-- A request that is forwarded was no CONNECT and has no line of this server; and what is forwarded.
answer_or_forward-some :
    (server_id f_line str : Bytes) (body : Option Bytes) (d fwd : Bytes) (c c' : Connection)
    → answer_or_forward server_id f_line str body d c ≡ ok (some fwd, c')
    → (is_prefix (codes "CONNECT") f_line ≡ false)
      × (fwd ≡ with_via server_id body (find crlf str) d)
unfolding answer_or_forward
answer_or_forward-some server_id f_line str body d fwd c c' e =
    elim (Bool-cases (is_prefix (codes "CONNECT") f_line)) [
      | inl h ↦
          let (w, _, q) = >>=-eq-ok (write established c) (λ c. ok (none, c)) (rw h at e) in
          absurd (cc)
      | inr h ↦ elim (Bool-cases (any_loop server_id (split_lines str))) [
        | inl l ↦ absurd (ground (arith, h, l, e))
        | inr l ↦ (h, ground (arith, h, l, e))
      ]
    ]

-- What `handle` did to forward a request.
record Forwarded (urls : Urls) (server_id d : Bytes) (fwd : Bytes) : Type 0 where
  str : Bytes
  body : Option Bytes
  f_line : Bytes
  dst : Bytes
  url : urls.Url
  head_is : str ≡ head_of d
  first_is : first (split_lines str) ≡ ok f_line
  target_is : target f_line ≡ ok dst
  url_is : urls.parse dst ≡ some url
  no_connect : is_prefix (codes "CONNECT") f_line ≡ false
  made : fwd ≡ with_via server_id body (find crlf str) d

module _ (urls : Urls) (server_id : Bytes) where
  finish : urls.Url → Option Bytes × Connection → Result ((RunAddr × Option Bytes) × Connection)
  finish url (cache, c) = do
    addr ← ok_or (urls.host_str url) invalid_data "URL has no host"
    port ← ok_or (urls.port_or_known_default url) invalid_data "URL has no port"
    ok ((record { addr = addr; port = port; udp = false }, cache), c)

  finish-cache :
      (url : urls.Url) (cache : Option Bytes) (c : Connection) (fwd : Bytes) (addr : RunAddr)
      (c' : Connection)
      → finish url (cache, c) ≡ ok ((addr, some fwd), c')
      → cache ≡ some fwd
  unfolding finish
  finish-cache url cache c fwd addr c' e = elim (Option-cases (urls.host_str url)) [
    | inl h ↦ absurd (cc (rw h at e))
    | inr (host, h) ↦ elim (Option-cases (urls.port_or_known_default url)) [
      | inl p ↦ absurd (cc (rw p at rw h at e))
      | inr (port, p) ↦ cc (rw p at rw h at e)
    ]
  ]

  module _ (d fwd : Bytes) (addr : RunAddr) (c c' : Connection) (str f_line dst : Bytes)
      (body : Option Bytes) (url : urls.Url) (head_is : str ≡ head_of d)
      (first_is : first (split_lines str) ≡ ok f_line) (target_is : target f_line ≡ ok dst)
      (url_is : urls.parse dst ≡ some url) where
    after_answer :
        (cache : Option Bytes) (c₂ : Connection)
        → answer_or_forward server_id f_line str body d c ≡ ok (cache, c₂)
        → finish url (cache, c₂) ≡ ok ((addr, some fwd), c')
        → Forwarded urls server_id d fwd
    after_answer cache c₂ e h =
        let cache_is : cache ≡ some fwd = finish-cache url cache c₂ fwd addr c' h in
        let (n, m) =
          answer_or_forward-some server_id f_line str body d fwd c c₂ (rw cache_is at e) in
        record {
          str = str;
          body = body;
          f_line = f_line;
          dst = dst;
          url = url;
          head_is = head_is;
          first_is = first_is;
          target_is = target_is;
          url_is = url_is;
          no_connect = n;
          made = m;
        }

    after_url :
        (answer_or_forward server_id f_line str body d c >>= finish url) ≡ ok ((addr, some fwd), c')
        → Forwarded urls server_id d fwd
    after_url e =
        let ((cache, c₂), e₁, h) =
          >>=-eq-ok (answer_or_forward server_id f_line str body d c) (finish url) e in
        after_answer cache c₂ e₁ h

  handle-Forwarded :
      (d fwd : Bytes) (addr : RunAddr) (c c' : Connection)
      → handle urls server_id d c ≡ ok ((addr, some fwd), c')
      → Forwarded urls server_id d fwd
  unfolding handle finish
  handle-Forwarded d fwd addr c c' e =
      let ((str, body), e₁, h₁) = >>=-eq-ok (head_and_body d) _ e in
      let (f_line, e₂, h₂) = >>=-eq-ok (first (split_lines str)) _ h₁ in
      let (dst, e₃, h₃) = >>=-eq-ok (target f_line) _ h₂ in
      let (url, e₄, h₄) = >>=-eq-ok (ok_or (urls.parse dst) invalid_data "Invalid URL") _ h₃ in
      after_url d fwd addr c c' str f_line dst body url (head_and_body-head d e₁).0 e₂ e₃
        (ok_or-eq-ok (urls.parse dst) "Invalid URL" url e₄) h₄

  regroup :
      (f x b : Bytes)
      → f ++ (crlf ++ (via_line server_id ++ (x ++ b)))
        ≡ f ++ (crlf ++ (via server_id ++ (crlf ++ (x ++ b))))
  regroup f x b = ap (λ t. f ++ (crlf ++ t)) (simp append_assoc)

  -- The same first line, and the line of this server behind it.
  refused :
      (d fwd f x w : Bytes) (c : Connection)
      → Lacks 13 server_id
      → Line f
      → Forwarded urls server_id d fwd
      → head_of d ≡ f ++ (crlf ++ x)
      → fwd ≡ f ++ (crlf ++ (via server_id ++ (crlf ++ w)))
      → (handle urls server_id fwd c ≡ err other "Loop detected")
        ⊎ (handle urls server_id fwd c ≡ err other "invalid utf-8 sequence")
  unfolding handle answer_or_forward
  refused d fwd f x w c l h r at_d at_fwd = elim (head_and_body-cases fwd) [
    | inr bad ↦ inr (rw bad refl)
    | inl (body, good) ↦
        let (x', v) =
          head_of-Line (via server_id) w (Lacks-Line (via server_id) (via-Lacks server_id l)) in
        let start : is_prefix crlf (via server_id ++ (crlf ++ w)) ≡ false =
          (unfold is_prefix in refl) in
        let str_is : head_of fwd ≡ f ++ (crlf ++ (via server_id ++ (crlf ++ x'))) =
          rw (at_fwd, head_of-next f (via server_id ++ (crlf ++ w)) h start, v) refl in
        let f_is : r.f_line ≡ f =
          (let q = rw (r.head_is, at_d, split_lines-Line f x h) at r.first_is in cc) in
        let first_is : first (split_lines (head_of fwd)) ≡ ok f =
          rw (str_is, split_lines-Line f (via server_id ++ (crlf ++ x')) h) refl in
        let any : any_loop server_id (split_lines (head_of fwd)) ≡ true =
          rw str_is (any_loop-via server_id f x' h l) in
        inl (
          rw
            (
              good,
              first_is,
              (let q : target f ≡ ok r.dst = rw⁻¹ f_is r.target_is in q),
              r.url_is,
              (let q : is_prefix (codes "CONNECT") f ≡ false = rw⁻¹ f_is r.no_connect in q),
              any,
            )
            refl)
  ]

  -- A server forwards a request that has a line end: its handshake returns the request with a line of its
  -- own behind the first one. If that request comes back to a server with the same id, which has no
  -- carriage return, in one piece of at most 2048 bytes, the handshake refuses it as a loop, unless its
  -- head is not UTF-8, which is refused too.
  pub forwarded_refused :
      (d fwd f behind : Bytes) (s s' : Stream) (addr : RunAddr) (c c' c'' : Connection)
      → Lacks 13 server_id
      → (c.incoming ≡ arrives d ∷ s) × (length d ≤ 2048)
      → find crlf d ≡ some (f, behind)
      → handshake urls server_id c ≡ ok ((addr, some fwd), c')
      → (c''.incoming ≡ arrives fwd ∷ s') × (length fwd ≤ 2048)
      → (handshake urls server_id c'' ≡ err other "Loop detected")
        ⊎ (handshake urls server_id c'' ≡ err other "invalid utf-8 sequence")
  unfolding handshake read
  forwarded_refused d fwd f behind s s' addr c c' c'' l (i, n) found e (i'', n'') =
      let w = find-FoundLine d f behind found in
      let d_is : d ≡ f ++ (crlf ++ w.rest) = cc (w.whole, w.behind_is) in
      let r =
        handle-Forwarded d fwd addr _ c' (rw (i, take_all 2048 d n, drop_all 2048 d n) at e) in
      let (x, h) = head_of-Line f w.rest w.is_line in
      let at_d : head_of d ≡ f ++ (crlf ++ x) = rw d_is h in
      let at_str : find crlf r.str ≡ some (f, crlf ++ x) =
        rw (r.head_is, at_d) (find-Line f x w.is_line) in
      let at_fwd : fwd ≡ f ++ (crlf ++ (via server_id ++ (crlf ++ (x ++ or_empty r.body)))) =
        (rw at_str at r.made) ∙ regroup f x (or_empty r.body) in
      rw (i'', take_all 2048 fwd n'', drop_all 2048 fwd n'')
        (refused d fwd f x (x ++ or_empty r.body) _ l w.is_line r at_d at_fwd)
