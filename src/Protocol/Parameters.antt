-- ===== src/Protocol/Parameters.antt =====
-- The bind parameters of protocol.go against the cells that carry their own type: what
-- `encodeOneParam` writes for a value is what `parseRowData` reads in a row of a stored procedure.
use cubrid_go.Prelude.{
  ℕ, ℤ, pos, wrap, wrap32-signed32, wrap32-lt, ◌+◌, ◌==◌, ◌≡◌, refl, ap, sym, ◌∙◌, List, [], ◌∷◌,
  ◌++◌, if◌then◌else◌, true, false, length, arith, append_assoc, append-nil, Option, none, some,
  map, All,
}
use cubrid_go.Runtime.{
  Runtime, Value, KeepsCivil, nil, bool, int64, float64, text, blob, time, other,
}
use cubrid_go.Packet.Writer.{
  PacketWriter, int32, new_packet_writer, write_byte, write_short, write_int, write_long,
  write_double, write_raw_bytes,
}
use cubrid_go.Packet.Reads.{Reads, Reads-cast}
use cubrid_go.Packet.RoundTrip.{write_datetime_fields_lem}
use cubrid_go.Protocol.Types.{ColumnMetaData}
use cubrid_go.Protocol.Bind.{encode_one_param, encode_params, encode_bind_params}
use cubrid_go.Protocol.Values.{parse_cells}
use cubrid_go.Protocol.Grammar.{
  Field, FieldFits, text_field, raw_field, short_field, big_int_field, double_field, datetime_field,
  string, var_bit, concat_bytes,
}
use cubrid_go.Protocol.Grammar.Rows.{cell_value, cell_bytes, CellsFit, cells_bytes}
use cubrid_go.Protocol.Parsed.Rows.{Reads-cells}

wrap-int32 : (z : ℤ) → wrap 32 (int32 z) ≡ wrap 32 z
wrap-int32 z = wrap32-signed32 (wrap 32 z) (wrap32-lt z)

module _ (go : Runtime) where
  -- The typed cell that stands for a parameter: a bool is a short, a time is in UTC, and a value of
  -- another type is the text that it prints as.
  abbrev pub param_cell : Value → Option Field
  param_cell nil = none
  param_cell (bool b) = some (short_field (if b then pos 1 else pos 0))
  param_cell (int64 z) = some (big_int_field z)
  param_cell (float64 d) = some (double_field d)
  param_cell (text s) = some (text_field string s)
  param_cell (blob bs) = some (raw_field var_bit bs)
  param_cell (time t) = some (datetime_field (go.utc t))
  param_cell (other s) = some (text_field string s)

  abbrev pub ParamFits : Value → Type 0
  ParamFits nil = Unit
  ParamFits (bool b) = Unit
  ParamFits (int64 z) = FieldFits (big_int_field z)
  ParamFits (float64 d) = FieldFits (double_field d)
  ParamFits (text s) = FieldFits (text_field string s)
  ParamFits (blob bs) = FieldFits (raw_field var_bit bs)
  ParamFits (time t) = FieldFits (datetime_field (go.utc t))
  ParamFits (other s) = FieldFits (text_field string s)

  -- What is sent for a parameter is the cell.
  encode_one_param_lem :
      (v : Value) (w : PacketWriter)
      → (encode_one_param go v w).buf ≡ w.buf ++ cell_bytes true (param_cell v)
  unfolding encode_one_param cell_bytes write_int write_byte write_short write_long write_double
      write_raw_bytes
  encode_one_param_lem nil w = refl
  encode_one_param_lem (bool true) w = simp append_assoc
  encode_one_param_lem (bool false) w = simp append_assoc
  encode_one_param_lem (int64 z) w = simp append_assoc
  encode_one_param_lem (float64 d) w = simp append_assoc
  encode_one_param_lem (text s) w =
      let e : 1 + length s + 1 ≡ length s + 1 + 1 = omega arith in
      rw (e, wrap-int32 (pos (length s + 1 + 1))) (simp append_assoc)
  encode_one_param_lem (blob bs) w =
      let e : 1 + length bs ≡ length bs + 1 = omega arith in
      rw (e, wrap-int32 (pos (length bs + 1))) (simp append_assoc)
  encode_one_param_lem (time t) w = simp (write_datetime_fields_lem, append_assoc)
  encode_one_param_lem (other s) w =
      let e : 1 + length s + 1 ≡ length s + 1 + 1 = omega arith in
      rw (e, wrap-int32 (pos (length s + 1 + 1))) (simp append_assoc)

  encode_params_lem :
      (args : List Value) (w : PacketWriter)
      → (encode_params go args w).buf
        ≡ w.buf ++ concat_bytes (λ v. cell_bytes true (param_cell v)) args
  unfolding encode_params
  encode_params_lem [] w = sym (append-nil w.buf)
  encode_params_lem (v ∷ vs) w =
      encode_params_lem vs (encode_one_param go v w)
      ∙ ap (λ (t : List ℕ). t ++ concat_bytes (λ v. cell_bytes true (param_cell v)) vs)
          (encode_one_param_lem v w)
      ∙ append_assoc w.buf (cell_bytes true (param_cell v)) _

  encode_bind_params_lem :
      (args : List Value)
      → encode_bind_params go args ≡ concat_bytes (λ v. cell_bytes true (param_cell v)) args
  unfolding encode_bind_params
  encode_bind_params_lem [] = refl
  encode_bind_params_lem (v ∷ vs) =
      let some_args : (length (v ∷ vs) == 0) ≡ false = ground arith in
      rw some_args (encode_params_lem (v ∷ vs) new_packet_writer)

  concat-cells_bytes :
      (cols : List ColumnMetaData) (args : List Value)
      → length cols ≡ length args
      → concat_bytes (λ v. cell_bytes true (param_cell v)) args
        ≡ cells_bytes true cols (map param_cell args)
  unfolding cells_bytes
  concat-cells_bytes [] [] e = refl
  concat-cells_bytes [] (v ∷ vs) e = absurd (omega arith)
  concat-cells_bytes (c ∷ cs) [] e = absurd (omega arith)
  concat-cells_bytes (c ∷ cs) (v ∷ vs) e =
      ap (λ (t : List ℕ). cell_bytes true (param_cell v) ++ t)
        (concat-cells_bytes cs vs (omega arith))

  CellsFit-params :
      (cols : List ColumnMetaData) (args : List Value)
      → length cols ≡ length args
      → All ParamFits args
      → CellsFit true cols (map param_cell args)
  CellsFit-params [] [] e h = tt
  CellsFit-params [] (v ∷ vs) e h = absurd (omega arith)
  CellsFit-params (c ∷ cs) [] e h = absurd (omega arith)
  CellsFit-params (c ∷ cs) (nil ∷ vs) e h = (tt, CellsFit-params cs vs (omega arith) h.1)
  CellsFit-params (c ∷ cs) (bool true ∷ vs) e h =
      (omega arith, CellsFit-params cs vs (omega arith) h.1)
  CellsFit-params (c ∷ cs) (bool false ∷ vs) e h =
      (omega arith, CellsFit-params cs vs (omega arith) h.1)
  CellsFit-params (c ∷ cs) (int64 z ∷ vs) e h = (h.0, CellsFit-params cs vs (omega arith) h.1)
  CellsFit-params (c ∷ cs) (float64 z ∷ vs) e h = (h.0, CellsFit-params cs vs (omega arith) h.1)
  CellsFit-params (c ∷ cs) (text z ∷ vs) e h = (h.0, CellsFit-params cs vs (omega arith) h.1)
  CellsFit-params (c ∷ cs) (blob z ∷ vs) e h = (h.0, CellsFit-params cs vs (omega arith) h.1)
  CellsFit-params (c ∷ cs) (time z ∷ vs) e h = (h.0, CellsFit-params cs vs (omega arith) h.1)
  CellsFit-params (c ∷ cs) (other z ∷ vs) e h = (h.0, CellsFit-params cs vs (omega arith) h.1)

module _ (go : Runtime) (keeps : KeepsCivil go) where
  -- The bytes of any list of parameters within range, read as the typed cells of as many columns,
  -- are the values of the parameters in order: NULL, booleans as 0 and 1, texts of any bytes,
  -- non-empty byte strings, times in UTC cut to milliseconds, other values as their text.
  pub params_read_back :
      (cols : List ColumnMetaData) (args : List Value)
      → length cols ≡ length args
      → All (ParamFits go) args
      → Reads
          (parse_cells go true cols)
          (encode_bind_params go args)
          (map (cell_value go) (map (param_cell go) args))
  params_read_back cols args e h =
      Reads-cast (sym (encode_bind_params_lem go args ∙ concat-cells_bytes go cols args e)) (
        Reads-cells go keeps true cols (map (param_cell go) args)
          (CellsFit-params go cols args e h))
