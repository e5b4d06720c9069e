-- ===== src/Prst/Wire/Entries.antt =====
-- One entry of a serialised pool, written and read back.
use fluxa_lang.Base.{
  ℕ, ◌+◌, ◌^◌, ◌≤◌, ◌<◌, ◌≡◌, sym, ap, ◌∙◌, List, ◌∷◌, ◌++◌, append_assoc, le→ltb_false, length,
  take, drop, arith, c_string, c_string-take, drop-drop, drop-append, length-append, le_bytes,
  word_at, word_at_4,
}
use fluxa_lang.Prst.Pool.{PrstEntry}
use fluxa_lang.Prst.Pool.Invariant.{IsEntry}
use fluxa_lang.Prst.Wire.{ser_value, ser_entry, deser_value, deser_entry, WireEntry}
use fluxa_lang.Prst.Wire.Reading.{ok}
use fluxa_lang.Prst.Wire.Values.{deser_value-ser_value}
use fluxa_lang.Prst.Wire.Heads.{Fits, arrived}
use fluxa_lang.Prst.Wire.Sizes.{wire_size-le-length}

-- An entry whose numbers have their width and whose values the wire format carries.
pub record EntryFits (e : PrstEntry) : Type 0 where
  pub type_width : e.declared_type < 2 ^ 32
  pub offset_width : e.stack_offset < 2 ^ 32
  pub value_fits : Fits e.value
  pub init_fits : Fits e.init_value

-- What the wire carries of an entry, and what arrives.
abbrev pub sent : PrstEntry → WireEntry
sent e = record {
  name = e.name;
  declared_type = e.declared_type;
  stack_offset = e.stack_offset;
  value = arrived e.value;
  init_value = arrived e.init_value;
}

-- The bytes of an entry with what follows, in reading order.
ser_entry-append :
    (e : PrstEntry) (r : List ℕ)
    → ser_entry e ++ r
      ≡ (e.name ++ 0 ∷ e.slack)
        ++ (le_bytes 4 e.declared_type
            ++ (le_bytes 4 e.stack_offset ++ (ser_value e.value ++ (ser_value e.init_value ++ r))))
unfolding ser_entry
ser_entry-append e r =
    append_assoc (e.name ++ 0 ∷ e.slack) _ r
    ∙ ap
        (λ t.
          (e.name ++ 0 ∷ e.slack)
          ++ (le_bytes 4 e.declared_type ++ (le_bytes 4 e.stack_offset ++ t)))
        (append_assoc (ser_value e.value) (ser_value e.init_value) r)

-- The reads of a round, given what stands where.
deser_entry_reads :
    (l : List ℕ) (w : WireEntry) (r1 r2 r3 : List ℕ)
    → 264 ≤ length l
    → c_string (take 255 l) ≡ w.name
    → word_at 4 (drop 256 l) ≡ w.declared_type
    → word_at 4 (drop 260 l) ≡ w.stack_offset
    → drop 264 l ≡ r1
    → deser_value (length l + 1) w.declared_type r1 ≡ ok (w.value, r2)
    → deser_value (length l + 1) w.declared_type r2 ≡ ok (w.init_value, r3)
    → deser_entry l ≡ ok (w, r3)
unfolding deser_entry
deser_entry_reads l w r1 r2 r3 h n d s k e f =
    rw (le→ltb_false (length l) 264 h, deser_entry) (rw (n, d, s, k) (rw e (rw f)))

-- The places of a buffer's parts: 256 bytes, two words, and a rest.
module _ (buf : List ℕ) (d s : ℕ) (rest : List ℕ) (size : length buf ≡ 256) where
  abbrev laid_out : List ℕ
  laid_out = buf ++ (le_bytes 4 d ++ (le_bytes 4 s ++ rest))

  drop_256 : drop 256 laid_out ≡ le_bytes 4 d ++ (le_bytes 4 s ++ rest)
  drop_256 = drop-append 256 buf _ size

  drop_260 : drop 260 laid_out ≡ le_bytes 4 s ++ rest
  drop_260 = sym (drop-drop 256 4 laid_out) ∙ ap (drop 4) drop_256

  drop_264 : drop 264 laid_out ≡ rest
  drop_264 = sym (drop-drop 256 8 laid_out) ∙ ap (drop 8) drop_256

  length-laid_out : length laid_out ≡ 264 + length rest
  length-laid_out = omega (arith, length-append buf (le_bytes 4 d ++ (le_bytes 4 s ++ rest)), size)

pub deser_entry-ser_entry :
    (e : PrstEntry) (r : List ℕ)
    → IsEntry e
    → EntryFits e
    → deser_entry (ser_entry e ++ r) ≡ ok (sent e, r)
deser_entry-ser_entry e r v f = rw (ser_entry-append e r) (
    deser_entry_reads l (sent e) y z r (omega (arith, len))
      (ap (λ t. c_string (take 255 t)) (append_assoc e.name (0 ∷ e.slack) _)
        ∙ c_string-take 255 e.name _ v.name_ok.no_zero (omega (arith, v.name_ok.short)))
      (ap (word_at 4) (drop_256 buf _ _ y size)
        ∙ word_at_4 e.declared_type (le_bytes 4 e.stack_offset ++ y) f.type_width)
      (ap (word_at 4) (drop_260 buf _ _ y size) ∙ word_at_4 e.stack_offset y f.offset_width)
      (drop_264 buf _ _ y size)
      (deser_value-ser_value e.declared_type e.value (length l + 1) z v.typed f.value_fits (
        omega (
          arith,
          len,
          length-append (ser_value e.value) z,
          wire_size-le-length e.value f.value_fits,
        )))
      (deser_value-ser_value e.declared_type e.init_value (length l + 1) r v.init_typed f.init_fits
        (omega (
          arith,
          len,
          length-append (ser_value e.value) z,
          length-append (ser_value e.init_value) r,
          wire_size-le-length e.init_value f.init_fits,
        ))))
  where
    buf : List ℕ
    buf = e.name ++ 0 ∷ e.slack

    z : List ℕ
    z = ser_value e.init_value ++ r

    y : List ℕ
    y = ser_value e.value ++ z

    l : List ℕ
    l = buf ++ (le_bytes 4 e.declared_type ++ (le_bytes 4 e.stack_offset ++ y))

    size : length buf ≡ 256
    size = omega (arith, length-append e.name (0 ∷ e.slack), v.buffer)

    len : length l ≡ 264 + length y
    len = length-laid_out buf e.declared_type e.stack_offset y size
