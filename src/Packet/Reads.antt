-- ===== src/Packet/Reads.antt =====
-- A calculus for parsers on well-formed input: `Reads m bs a` says that `m`, where `bs` comes next,
-- takes exactly `bs` and returns `a`, whatever follows.
use cubrid_go.Prelude.{
  ℕ, ℤ, pos, Fits, wrap, signed16-wrap, signed32-wrap, signed64-wrap, wrap16-lt, wrap32-lt,
  wrap64-lt, ◌+◌, ◌^◌, ◌<◌, leb, List, [], ◌∷◌, ◌++◌, ◌≡◌, refl, sym, ap, ◌∙◌, true, length, drop,
  arith, length-append, drop-append, take-append, drop-drop, append_assoc, append-nil, is_positive,
}
use mathlib.Core.Path.{subst}
use cubrid_go.Result.{ok, err, GoError}
use cubrid_go.Wire.{
  put_uint16, put_uint32, put_uint64, uint16-put_uint16, uint32-put_uint32, uint64-put_uint64,
  length-put_uint16, length-put_uint32, length-put_uint64,
}
use cubrid_go.Packet.Reader.{
  PacketReader, new_packet_reader, remaining, advance, Parser, ◌>>=◌, pure, fail, run, parse_byte,
  parse_short, parse_int, parse_long, parse_float, parse_double, parse_raw_bytes, strip_null,
  parse_null_term_string,
}

pub record Reads {ℓ} {A : Type ℓ} (m : Parser A) (bs : List ℕ) (a : A) : Type ℓ where
  pub at :
      (r : PacketReader) (rest : List ℕ)
      → remaining r ≡ bs ++ rest
      → m r ≡ ok (a, advance (length bs) r)

advance_zero : (r : PacketReader) → advance 0 r ≡ r
advance_zero r =
    ap (λ (k : ℕ). record r { offset = k }) (let e : r.offset + 0 ≡ r.offset = omega arith in e)

advance-advance : (m n : ℕ) (r : PacketReader) → advance n (advance m r) ≡ advance (m + n) r
advance-advance m n r =
    ap (λ (k : ℕ). record r { offset = k })
      (let e : r.offset + m + n ≡ r.offset + (m + n) = omega arith in e)

remaining-advance :
    (r : PacketReader) (bs rest : List ℕ)
    → remaining r ≡ bs ++ rest
    → remaining (advance (length bs) r) ≡ rest
remaining-advance r bs rest h =
    sym (drop-drop r.offset (length bs) r.buf) ∙ ap (drop (length bs)) h ∙ drop-append bs rest

module _ {ℓ} {A : Type ℓ} where
  pub Reads-pure : (a : A) → Reads (pure a) [] a
  unfolding pure
  Reads-pure a = record {
    at = λ r rest h. ap (λ (s : PacketReader). ok (a, s)) (sym (advance_zero r));
  }

  pub Reads-cast : {m : Parser A} {bs cs : List ℕ} {a : A} → bs ≡ cs → Reads m bs a → Reads m cs a
  Reads-cast {m} {a = a} e p = rw e at p

  pub Reads-run :
      {m : Parser A} {bs : List ℕ} {a : A} (rest : List ℕ)
      → Reads m bs a
      → run m (bs ++ rest) ≡ ok a
  unfolding run
  Reads-run rest p = rw (p.at (new_packet_reader _) rest refl)

module _ {ℓ κ} {A : Type ℓ} {B : Type κ} where
  pub Reads-bind :
      (f : A → Parser B) {m : Parser A} {bs cs : List ℕ} {a : A} {b : B}
      → Reads m bs a
      → Reads (f a) cs b
      → Reads (m >>= f) (bs ++ cs) b
  unfolding ◌>>=◌
  Reads-bind f {m} {bs} {cs} {a} {b} p q = record {
    at = λ r rest h.
        let h' : remaining r ≡ bs ++ (cs ++ rest) = h ∙ append_assoc bs cs rest in
        rw (p.at r (cs ++ rest) h') (
          q.at (advance (length bs) r) rest (remaining-advance r bs (cs ++ rest) h')
          ∙ ap (λ (s : PacketReader). ok (b, s))
              (advance-advance (length bs) (length cs) r
                ∙ ap (λ (k : ℕ). advance k r) (sym (length-append bs cs))));
  }

  -- The last step of a block, which reads nothing.
  pub Reads-return :
      (f : A → B) {m : Parser A} {bs : List ℕ} {a : A}
      → Reads m bs a
      → Reads (m >>= λ x. pure (f x)) bs (f a)
  Reads-return f {bs = bs} {a = a} p =
      Reads-cast (append-nil bs) (Reads-bind _ p (Reads-pure (f a)))

pub Reads-byte : (b : ℕ) → Reads parse_byte (b ∷ []) b
unfolding parse_byte
Reads-byte b = record { at = λ r rest h. rw h }

pub Reads-short : (z : ℤ) → Fits 15 z → Reads parse_short (put_uint16 (wrap 16 z)) z
unfolding parse_short
Reads-short z h = record {
  at = λ r rest e.
      rw
        (e, uint16-put_uint16 (wrap 16 z) rest (wrap16-lt z), signed16-wrap z h, length-put_uint16);
}

pub Reads-int : (z : ℤ) → Fits 31 z → Reads parse_int (put_uint32 (wrap 32 z)) z
unfolding parse_int
Reads-int z h = record {
  at = λ r rest e.
      rw
        (e, uint32-put_uint32 (wrap 32 z) rest (wrap32-lt z), signed32-wrap z h, length-put_uint32);
}

pub Reads-long : (z : ℤ) → Fits 63 z → Reads parse_long (put_uint64 (wrap 64 z)) z
unfolding parse_long
Reads-long z h = record {
  at = λ r rest e.
      rw
        (e, uint64-put_uint64 (wrap 64 z) rest (wrap64-lt z), signed64-wrap z h, length-put_uint64);
}

pub Reads-float : (b : ℕ) → b < 2 ^ 32 → Reads parse_float (put_uint32 b) b
unfolding parse_float
Reads-float b h = record { at = λ r rest e. rw (e, uint32-put_uint32 b rest h, length-put_uint32) }

pub Reads-double : (b : ℕ) → b < 2 ^ 64 → Reads parse_double (put_uint64 b) b
unfolding parse_double
Reads-double b h = record { at = λ r rest e. rw (e, uint64-put_uint64 b rest h, length-put_uint64) }

leb-length-append : (bs rest : List ℕ) → leb (length bs) (length (bs ++ rest)) ≡ true
leb-length-append bs rest = ground (arith, length-append bs rest)

pub Reads-raw_bytes : (bs : List ℕ) → Reads (parse_raw_bytes (pos (length bs))) bs bs
unfolding parse_raw_bytes
Reads-raw_bytes bs = record {
  at = λ r rest e. rw (e, leb-length-append bs rest, take-append bs rest);
}

pub strip_null-append : (s : List ℕ) → strip_null (s ++ (0 ∷ [])) ≡ s
unfolding strip_null
strip_null-append [] = refl
strip_null-append (b ∷ []) = refl
strip_null-append (b ∷ c ∷ s) = ap (λ (t : List ℕ). b ∷ t) (strip_null-append (c ∷ s))

-- A text of any bytes, 0 included, behind its length and before its null byte.
pub Reads-null_term_string :
    (s : List ℕ) → Reads (parse_null_term_string (pos (length s + 1))) (s ++ (0 ∷ [])) s
unfolding parse_null_term_string
Reads-null_term_string s =
    let e : length (s ++ (0 ∷ [])) ≡ length s + 1 = length-append s (0 ∷ []) in
    let positive : is_positive (pos (length s + 1)) ≡ true = ground arith in
    rw positive (
      subst
        (λ (n : ℕ).
          Reads (parse_raw_bytes (pos n) >>= λ bytes. pure (strip_null bytes)) (s ++ (0 ∷ [])) s)
        e
        (subst
          (λ (t : List ℕ).
            Reads
              (parse_raw_bytes (pos (length (s ++ (0 ∷ [])))) >>= λ bytes. pure (strip_null bytes))
              (s ++ (0 ∷ [])) t)
          (strip_null-append s) (Reads-return _ (Reads-raw_bytes (s ++ (0 ∷ []))))))

-- `m`, where `bs` comes next, returns the error `e`.
pub record Fails {ℓ} {A : Type ℓ} (m : Parser A) (bs : List ℕ) (e : GoError) : Type ℓ where
  pub at : (r : PacketReader) (rest : List ℕ) → remaining r ≡ bs ++ rest → m r ≡ err e

pub Fails-fail {ℓ} : {A : Type ℓ} (e : GoError) → Fails (fail {A = A} e) [] e
unfolding fail
Fails-fail e = record { at = λ r rest h. refl }

module _ {ℓ κ} {A : Type ℓ} {B : Type κ} where
  pub Fails-bind :
      (f : A → Parser B) {m : Parser A} {bs cs : List ℕ} {a : A} {e : GoError}
      → Reads m bs a
      → Fails (f a) cs e
      → Fails (m >>= f) (bs ++ cs) e
  unfolding ◌>>=◌
  Fails-bind f {m} {bs} {cs} {a} {e} p q = record {
    at = λ r rest h.
        let h' : remaining r ≡ bs ++ (cs ++ rest) = h ∙ append_assoc bs cs rest in
        rw (p.at r (cs ++ rest) h')
          (q.at (advance (length bs) r) rest (remaining-advance r bs (cs ++ rest) h'));
  }

module _ {ℓ} {A : Type ℓ} where
  pub Fails-cast :
      {m : Parser A} {bs cs : List ℕ} {e : GoError} → bs ≡ cs → Fails m bs e → Fails m cs e
  Fails-cast {m} {e = e} q p = rw q at p

  pub Fails-run : {m : Parser A} {bs : List ℕ} {e : GoError} → Fails m bs e → run m bs ≡ err e
  unfolding run
  Fails-run {bs = bs} p = rw (p.at (new_packet_reader bs) [] (sym (append-nil bs)))
