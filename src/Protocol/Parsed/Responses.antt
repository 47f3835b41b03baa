-- ===== src/Protocol/Parsed/Responses.antt =====
-- Whole responses that follow the grammar.
use mathlib.Core.Path.{subst}
use cubrid_go.Prelude.{
  ℕ, ℤ, pos, ◌<◌, ◌≤◌, ◌-◌, ◌^◌, ◌==◌, ltb, leb, ◌≡◌, refl, List, [], ◌∷◌, ◌++◌, Bool, true, false,
  length, arith, Option, none, some, All, is_positive, if◌then◌else◌, ap, ◌∙◌, length-drop,
  length-append, ◌&&◌, ◌⊎◌, inl, inr,
}
use cubrid_go.Runtime.{Runtime, KeepsCivil}
use cubrid_go.Constants.{stmt_select, stmt_call_sp}
use cubrid_go.Wire.{length-put_uint32}
use cubrid_go.Packet.Reader.{
  PacketReader, remaining, Parser, ◌>>=◌, pure, parse_raw_bytes, bytes_remaining,
}
use cubrid_go.Packet.Reads.{
  Reads, Reads-bind, Reads-return, Reads-pure, Reads-byte, Reads-int, Reads-raw_bytes,
}
use cubrid_go.Protocol.Types.{ColumnMetaData}
use cubrid_go.Protocol.Responses.{
  parse_response, parse_prepared, parse_results, skip_if, parse_rows_if, parse_inline_rows,
  parse_prepared_and_executed,
}
use cubrid_go.Protocol.Grammar.{int_bytes, concat_bytes}
use cubrid_go.Protocol.Grammar.Rows.{WireRow, RowFits, row_bytes}
use cubrid_go.Protocol.Grammar.Responses.{
  response_bytes, WirePrepared, PreparedFits, prepared_bytes, prepared_result, metas, WireResults,
  ResultsFit, results_bytes, info_results, WireInline, InlineFits, inline_bytes, inline_rows,
  values_of, WireExecution, ExecutionFits, execution_bytes, execution_result,
}
use cubrid_go.Protocol.Parsed.Tables.{columns_read_back, infos_read_back}
use cubrid_go.Protocol.Parsed.Rows.{rows_read_back}

pub Reads-cas : (cas : List ℕ) → length cas ≡ 4 → Reads (parse_raw_bytes (pos 4)) cas cas
Reads-cas cas h = subst (λ (n : ℕ). Reads (parse_raw_bytes (pos n)) cas cas) h (Reads-raw_bytes cas)

module _ {ℓ} {A : Type ℓ} (bytes cas : List ℕ) (four : length cas ≡ 4) where
  pub Reads-response :
      (body : ℤ → Parser A) (n : ℕ) {bs : List ℕ} {a : A}
      → n < 2 ^ 31
      → Reads (body (pos n)) bs a
      → Reads (parse_response bytes body) (response_bytes cas (pos n) bs) a
  unfolding parse_response
  Reads-response body n h p =
      Reads-bind _ (Reads-cas cas four) (Reads-bind _ (Reads-int (pos n) h) p)

pub Reads-prepared :
    (code : ℤ) (p : WirePrepared)
    → PreparedFits p
    → Reads (parse_prepared code) (prepared_bytes p) (prepared_result code p)
unfolding parse_prepared prepared_bytes
Reads-prepared code p h = Reads-bind _ (Reads-int p.lifetime h.lifetime_fits) (
    Reads-bind _ (Reads-byte p.statement_type) (
      Reads-bind _ (Reads-int p.bind_count h.bind_fits) (
        Reads-bind _ (Reads-byte p.updatable) (
          Reads-bind _ (Reads-int (pos (length p.columns)) h.count_fits)
            (Reads-return _ (columns_read_back p.columns h.columns_fit))))))

module _ {ℓ} {A : Type ℓ} where
  Reads-skip_if :
      (b : Bool) {m : Parser A} {bs : List ℕ} {a : A}
      → Reads m bs a
      → Reads (skip_if b m) (if b then bs else []) tt
  unfolding skip_if
  Reads-skip_if true p = Reads-return _ p
  Reads-skip_if false p = Reads-pure tt

pub Reads-results :
    (version : ℕ) (w : WireResults)
    → ResultsFit w
    → Reads (parse_results version) (results_bytes version w) (info_results w)
unfolding parse_results results_bytes
Reads-results version w h = Reads-bind _ (Reads-byte w.reusable) (
    Reads-bind _ (Reads-int (pos (length w.infos)) h.count_fits) (
      Reads-bind _ (infos_read_back w.infos h.infos_fit) (
        Reads-bind _ (Reads-skip_if (ltb 1 version) (Reads-byte w.column_info))
          (Reads-return _ (Reads-skip_if (ltb 4 version) (Reads-int w.shard h.shard_fits))))))

module _ {ℓ} {B : Type ℓ} where
  Reads-remaining :
      (k : ℕ → Parser B) (m : Parser B) {bs : List ℕ} {b : B}
      → ((r : PacketReader) (rest : List ℕ)
          → remaining r ≡ bs ++ rest
          → k (length r.buf - r.offset) ≡ m)
      → Reads m bs b
      → Reads (bytes_remaining >>= k) bs b
  unfolding ◌>>=◌ bytes_remaining
  Reads-remaining k m same p = record {
    at = λ r rest h. ap (λ (f : Parser B). f r) (same r rest h) ∙ p.at r rest h;
  }

enough_left :
    (r : PacketReader) (bs rest : List ℕ)
    → remaining r ≡ bs ++ rest
    → 8 ≤ length bs
    → leb 8 (length r.buf - r.offset) ≡ true
enough_left r bs rest h long =
    ground (arith, length-drop r.offset r.buf, ap (length {A = ℕ}) h, length-append bs rest)

module _ {ℓ} {B : Type ℓ} where
  Reads-if_left :
      (c : Bool) (m n : Parser B) {bs : List ℕ} {b : B}
      → c ≡ true
      → 8 ≤ length bs
      → Reads m bs b
      → Reads (bytes_remaining >>= λ left. if c && leb 8 left then m else n) bs b
  Reads-if_left c m n {bs} e long p =
      Reads-remaining (λ left. if c && leb 8 left then m else n) m
        (λ r rest q. rw (e, enough_left r bs rest q long)) p

eight : (a b : ℤ) (bs : List ℕ) → 8 ≤ length (int_bytes a ++ (int_bytes b ++ bs))
eight a b bs =
    rw (length-append (int_bytes a), length-append (int_bytes b)) (omega (arith, length-put_uint32))

module _ (go : Runtime) (keeps : KeepsCivil go) where
  -- `with_columns` holds where there are rows.
  pub Reads-rows_if :
      (columns : List ColumnMetaData) (stmt_type : ℕ) (with_columns : Bool) (rows : List WireRow)
      → (with_columns ≡ true) ⊎ (rows ≡ [])
      → All (RowFits (stmt_type == stmt_call_sp) columns) rows
      → Reads
          (parse_rows_if go
            (is_positive (pos (length rows)) && with_columns)
            (pos (length rows))
            columns
            stmt_type)
          (concat_bytes (row_bytes (stmt_type == stmt_call_sp) columns) rows)
          (values_of go rows)
  unfolding parse_rows_if
  Reads-rows_if columns stmt_type with_columns [] e h = Reads-pure []
  Reads-rows_if columns stmt_type with_columns (r ∷ rows) (inl e) h =
      let positive : is_positive (pos (length (r ∷ rows))) ≡ true = ground arith in
      rw (positive, e) (rows_read_back go keeps columns stmt_type (r ∷ rows) h)
  Reads-rows_if columns stmt_type with_columns (r ∷ rows) (inr e) h = cc

  pub Reads-inline :
      (stmt_type : ℕ) (columns : List ColumnMetaData) (with_columns : Bool) (i : Option WireInline)
      → (with_columns ≡ true) ⊎ (inline_rows i ≡ [])
      → InlineFits stmt_type columns i
      → Reads
          (parse_inline_rows go with_columns stmt_type columns)
          (inline_bytes stmt_type columns i)
          (pos (length (inline_rows i)), values_of go (inline_rows i))
  unfolding parse_inline_rows inline_bytes
  Reads-inline stmt_type columns with_columns none e h =
      Reads-remaining _ (pure (pos 0, [])) (λ r rest q. rw h) (Reads-pure _)
  Reads-inline stmt_type columns with_columns (some i) e (select, code, count, rows) =
      Reads-if_left (stmt_type == stmt_select) _ (pure (pos 0, [])) select
        (eight i.fetch_code (pos (length i.rows)) _)
        (Reads-bind _ (Reads-int i.fetch_code code) (
          Reads-bind _ (Reads-int (pos (length i.rows)) count)
            (Reads-return _ (Reads-rows_if columns stmt_type with_columns i.rows e rows))))

  pub Reads-execution :
      (version : ℕ) (code : ℤ) (w : WireExecution)
      → ExecutionFits w
      → Reads
          (parse_prepared_and_executed go version code)
          (execution_bytes version w)
          (execution_result go code w)
  unfolding parse_prepared_and_executed execution_bytes
  Reads-execution version code w h = Reads-bind _ (Reads-prepared code w.prepared h.prepared_fits) (
      Reads-bind _ (Reads-int w.total h.total_fits) (
        Reads-bind _ (Reads-results version w.results h.results_fit) (
          Reads-return _ (
            Reads-inline w.prepared.statement_type (metas w.prepared.columns) true w.inline
              (inl refl) h.inline_fits))))
