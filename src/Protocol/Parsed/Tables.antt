-- ===== src/Protocol/Parsed/Tables.antt =====
-- Column metadata and result infos.
use mathlib.Core.Path.{subst}
use Prim.Native.Nat.{bit_and}
use cubrid_go.Prelude.{
  ℕ, pos, ◌==◌, if◌then◌else◌, ◌≡◌, List, [], ◌∷◌, Bool, true, false, length, Option, none, some,
  map, All, arith, append-nil,
}
use cubrid_go.Prelude.Bytes.{high_bit_clear}
use cubrid_go.Packet.Reader.{Parser, pure, parse_byte, parse_raw_bytes}
use cubrid_go.Packet.Reads.{
  Reads, Reads-bind, Reads-return, Reads-pure, Reads-cast, Reads-byte, Reads-short, Reads-int,
  Reads-raw_bytes,
}
use cubrid_go.Packet.RoundTrip.{null_term_bytes, Reads-string}
use cubrid_go.Protocol.Tables.{
  parse_flag, parse_sized_string, parse_column_type, parse_column, repeat, parse_column_metadata,
  parse_result_info, parse_result_infos,
}
use cubrid_go.Protocol.Grammar.{
  concat_bytes, WireColumn, ColumnFits, column_bytes, type_bytes, TypeFits, flag_bytes, TextFits,
  WireInfo, InfoFits, info_bytes,
}

Reads-flag : (b : Bool) → Reads parse_flag (flag_bytes b) b
unfolding parse_flag
Reads-flag true = Reads-return _ (Reads-byte 1)
Reads-flag false = Reads-return _ (Reads-byte 0)

Reads-sized_string : (s : List ℕ) → TextFits s → Reads parse_sized_string (null_term_bytes s) s
unfolding parse_sized_string
Reads-sized_string s h = Reads-string s h

Reads-column_type :
    (l : Option ℕ) (t : ℕ) → TypeFits l t → Reads parse_column_type (type_bytes l t) t
unfolding parse_column_type
Reads-column_type none t h =
    let clear : (bit_and t 0x80 == 0) ≡ true = ground (arith, high_bit_clear t) in
    Reads-cast (append-nil (t ∷ [])) (
      Reads-bind (λ b. if bit_and b 0x80 == 0 then pure b else parse_byte) (Reads-byte t)
        (rw clear (Reads-pure t)))
Reads-column_type (some l) t h =
    let set : (bit_and l 0x80 == 0) ≡ false = ground (arith, high_bit_clear l) in
    Reads-bind (λ b. if bit_and b 0x80 == 0 then pure b else parse_byte) (Reads-byte l)
      (rw set (Reads-byte t))

Reads-column : (c : WireColumn) → ColumnFits c → Reads parse_column (column_bytes c) c.meta
unfolding parse_column column_bytes
Reads-column c h = Reads-bind _ (Reads-column_type c.legacy c.meta.column_type h.type_fits) (
    Reads-bind _ (Reads-short c.meta.scale h.scale_fits) (
      Reads-bind _ (Reads-int c.meta.precision h.precision_fits) (
        Reads-bind _ (Reads-sized_string c.meta.name h.name_fits) (
          Reads-bind _ (Reads-sized_string c.meta.real_name h.real_name_fits) (
            Reads-bind _ (Reads-sized_string c.meta.table_name h.table_name_fits) (
              Reads-bind _ (Reads-flag c.meta.is_nullable) (
                Reads-bind _ (Reads-sized_string c.meta.default_value h.default_value_fits) (
                  Reads-bind _ (Reads-flag c.meta.is_auto_increment) (
                    Reads-bind _ (Reads-flag c.meta.is_unique_key) (
                      Reads-bind _ (Reads-flag c.meta.is_primary_key) (
                        Reads-bind _ (Reads-byte c.reverse_index) (
                          Reads-bind _ (Reads-byte c.reverse_unique) (
                            Reads-bind _ (Reads-flag c.meta.is_foreign_key)
                              (Reads-return _ (Reads-byte c.shared)))))))))))))))

module _ {ℓ κ} {X : Type ℓ} {A : Type κ} (body : Parser A) (bytes : X → List ℕ)
    (value : X → A) where
  pub Reads-repeat :
      (items : List X)
      → All (λ x. Reads body (bytes x) (value x)) items
      → Reads (repeat (length items) body) (concat_bytes bytes items) (map value items)
  unfolding repeat
  Reads-repeat [] h = Reads-pure []
  Reads-repeat (x ∷ xs) h =
      Reads-bind _ h.0 (Reads-return (λ ys. value x ∷ ys) (Reads-repeat xs h.1))

pub All-map {ℓ κ λ'} :
    {A : Type ℓ} {P : A → Type κ} {Q : A → Type λ'} (f : (x : A) → P x → Q x) (xs : List A)
    → All P xs
    → All Q xs
All-map f [] h = tt
All-map f (x ∷ xs) h = (f x h.0, All-map f xs h.1)

-- The metadata of any list of columns in the grammar, each with its type byte extended or not, is
-- read back in order and takes exactly its bytes, whatever the skipped bytes hold.
pub columns_read_back :
    (cols : List WireColumn)
    → All ColumnFits cols
    → Reads
        (parse_column_metadata (pos (length cols)))
        (concat_bytes column_bytes cols)
        (map (λ c. c.meta) cols)
unfolding parse_column_metadata
columns_read_back cols h =
    Reads-repeat parse_column column_bytes (λ c. c.meta) cols (All-map Reads-column cols h)

Reads-info : (i : WireInfo) → InfoFits i → Reads parse_result_info (info_bytes i) i.info
unfolding parse_result_info info_bytes
Reads-info i h =
    let oid : Reads (parse_raw_bytes (pos 8)) i.info.oid i.info.oid =
      subst (λ (n : ℕ). Reads (parse_raw_bytes (pos n)) i.info.oid i.info.oid) h.oid_length
        (Reads-raw_bytes i.info.oid) in
    Reads-bind _ (Reads-byte i.info.stmt_type) (
      Reads-bind _ (Reads-int i.info.result_count h.count_fits) (
        Reads-bind _ oid (
          Reads-bind _ (Reads-int i.cache_sec h.sec_fits)
            (Reads-return _ (Reads-int i.cache_usec h.usec_fits)))))

pub infos_read_back :
    (infos : List WireInfo)
    → All InfoFits infos
    → Reads
        (parse_result_infos (pos (length infos)))
        (concat_bytes info_bytes infos)
        (map (λ i. i.info) infos)
unfolding parse_result_infos
infos_read_back infos h =
    Reads-repeat parse_result_info info_bytes (λ i. i.info) infos (All-map Reads-info infos h)
