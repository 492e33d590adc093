-- ===== src/Visit/Render.antt =====
-- Visiting a value prints it.
use btui.Prelude.{
  ℕ, zero, suc, ◌≤◌, ◌≡◌, refl, sym, ap, ◌∙◌, List, [], ◌∷◌, ◌++◌, append_assoc, append-nil, length,
  length-append, arith,
}
use btui.Prelude.Int.{pos}
use btui.Result.{ok}
use btui.Range.{Range, le_bytes}
use btui.Range.Words.{view-append, read-le_bytes}
use btui.Visitor.{
  new, enum_chars, field_chars, null_chars, struct_name, ToStringVisitor, State, comma_chars,
  comma_state, state_at, visit, comma, normal, seq_begin, seq,
}
use btui.Visit.{
  visit_value, NumberPrinter, StructPrinter, Visited, visit_impl, visit_tag, visit_elems,
  visit_fields, singular_impl,
}
use btui.Visit.Hex.{hex_value}
use btui.Visit.Enums.{name_of}
use btui.Visit.Values.{
  Value, Values, Fields, number, enumerator, text, sequence, tuple, variant, absent, empty,
  structure, printed, nil, cons, last, field, concat, tag_of, tags_of, field_tags, count, bytes_of,
  bytes_of_all, bytes_of_fields, render, render_all, render_more, render_fields,
}
use btui.Visit.Tags.{zero-IsWhole, char-IsWhole, drop_last-append, pop_all-concat, pop-IsWhole}
use btui.Visit.Whole.{
  Fits, FitsAll, FitsFields, tag_of-IsWhole, list_of, concat-list_of, list_of-All, pairs_of,
  pop_fields-field_tags, split-structure, split-empty,
}
use btui.Visit.Singular.{repeat_lem}
use btui.Tags.Pop.{tag_pop_lem}
use btui.Visit.Steps.{
  height, height_all, height_fields, at, after, begun, after-begin, after-seq, after-normal,
  enter_at, leave_at, leaf_out, bracket_out, struct_out, three_out, skip-concat, field_tags-label,
  times-elems_at, elems_all, number_lem, enum_lem, fields_lem, begin_lem, tag_of-not_null,
}

module _ (print_number : NumberPrinter) (print_struct : StructPrinter) (full_tag : List ℕ) where
  abbrev go : ℕ → List ℕ → ToStringVisitor → Range → Visited
  go = visit_impl print_number print_struct full_tag

  mutual
    unfolding comma begun Fits tag_of bytes_of height render after list_of pairs_of visit_impl visit
        visit_elems visit_fields visit_tag

    visit-value :
        (v : Value) (n : ℕ) (s : State) (d : ℕ) (out rest : List ℕ)
        → Fits full_tag print_struct v
        → height v ≤ n
        → go n (tag_of v) (at s d out) (bytes_of v ++ rest)
          ≡ (at (after v s d) d (out ++ (comma_chars s ++ render print_number v)), ok rest)
    visit-value (number tag bits) zero s d out rest h k = absurd (omega arith)
    visit-value (enumerator tag bits name es) zero s d out rest h k = absurd (omega arith)
    visit-value (text chars) zero s d out rest h k = absurd (omega arith)
    visit-value (sequence elem vs) zero s d out rest h k = absurd (omega arith)
    visit-value (tuple vs) zero s d out rest h k = absurd (omega arith)
    visit-value (variant before v behind) zero s d out rest h k = absurd (omega arith)
    visit-value (absent before behind) zero s d out rest h k = absurd (omega arith)
    visit-value (empty name) zero s d out rest h k = absurd (omega arith)
    visit-value (structure name fs) zero s d out rest h k = absurd (omega arith)
    visit-value (printed name fields bytes chars) zero s d out rest h k = absurd (omega arith)
    visit-value (number tag bits) (suc n) s d out rest (m, e, h) k =
        number_lem print_number print_struct full_tag (go n) (singular_impl full_tag n) tag m bits
          (at s d out) rest e h
        ∙ leaf_out s d out (print_number tag bits) rest
    visit-value (enumerator tag bits name es) (suc n) s d out rest ((m, e, h), _, q, g) k =
        enum_lem print_number print_struct full_tag (go n) (singular_impl full_tag n) tag m bits
          name es (at s d out) rest e h q g
        ∙ leaf_out s d out (enum_chars (name_of (hex_value tag bits) es) (hex_value tag bits)) rest
    visit-value (text chars) (suc n) s d out rest h k =
        rw
          (
            pop-IsWhole char-IsWhole,
            append_assoc (le_bytes 4 (length chars)) chars rest,
            read-le_bytes 4 (length chars) (chars ++ rest) h,
            view-append chars rest,
          )
          (leaf_out s d out chars rest)
    visit-value (sequence elem vs) (suc n) s d out rest (c, w, hs, m, q) k =
        rw
          (
            pop-IsWhole w,
            append_assoc (le_bytes 4 (count vs)) (bytes_of_all vs) rest,
            read-le_bytes 4 (count vs) (bytes_of_all vs ++ rest) m,
            c,
            repeat_lem print_struct full_tag n elem vs hs (omega arith) q,
            enter_at (comma_state s) d ((out ++ comma_chars s) ++ (91 ∷ [])),
            times-elems_at print_number print_struct full_tag (go n) elem vs hs
                (at seq_begin (suc d) ((out ++ comma_chars s) ++ (91 ∷ [])))
                (bytes_of_all vs ++ rest),
            visit-all vs n d ((out ++ comma_chars s) ++ (91 ∷ [])) rest
                (elems_all print_number print_struct full_tag elem vs hs) (omega arith),
            leave_at (begun vs) d (
                (((out ++ comma_chars s) ++ (91 ∷ [])) ++ render_all print_number vs) ++ (93 ∷ [])),
          )
          (ap (λ o. (at (state_at (pos d)) d o, ok rest))
            (bracket_out out (comma_chars s) (91 ∷ []) (render_all print_number vs) (93 ∷ [])))
    visit-value (tuple vs) (suc n) s d out rest h k =
        rw
          (
            drop_last-append (tags_of vs) 41,
            sym (concat-list_of vs),
            pop_all-concat (list_of vs) (length (concat (list_of vs) ++ (41 ∷ [])))
                (list_of-All full_tag print_struct vs h)
                (omega (arith, length-append (concat (list_of vs)) (41 ∷ []))),
            enter_at (comma_state s) d ((out ++ comma_chars s) ++ (40 ∷ [])),
            visit-all vs n d ((out ++ comma_chars s) ++ (40 ∷ [])) rest h (omega arith),
            leave_at (begun vs) d (
                (((out ++ comma_chars s) ++ (40 ∷ [])) ++ render_all print_number vs) ++ (41 ∷ [])),
          )
          (ap (λ o. (at (state_at (pos d)) d o, ok rest))
            (bracket_out out (comma_chars s) (40 ∷ []) (render_all print_number vs) (41 ∷ [])))
    visit-value (variant before v behind) (suc n) s d out rest (m, ws, h, us) k =
        rw
          (
            append_assoc (le_bytes 1 (length before)) (bytes_of v) rest,
            read-le_bytes 1 (length before) (bytes_of v ++ rest) m,
            drop_last-append (concat before ++ (tag_of v ++ concat behind)) 62,
            skip-concat before (tag_of v ++ concat behind) ws,
            tag_pop_lem (tag_of-IsWhole full_tag print_struct v h).tag (concat behind),
            tag_of-not_null print_number print_struct full_tag v h,
            visit-value v n s d out rest h (omega arith),
          )
          refl
    visit-value (absent before behind) (suc n) s d out rest (m, ws, us) k =
        rw
          (
            read-le_bytes 1 (length before) rest m,
            drop_last-append (concat before ++ (48 ∷ concat behind)) 62,
            skip-concat before (48 ∷ concat behind) ws,
            tag_pop_lem zero-IsWhole.tag (concat behind),
          )
          (leaf_out s d out null_chars rest)
    visit-value (empty name) (suc n) s d out rest (w, e, p) k =
        rw (split-empty name w, e, p rest) (leaf_out s d out (struct_name name) rest)
    visit-value (structure name fs) (suc n) s d out rest (w, hs, p) k =
        let (tail, e) = field_tags-label fs in
        rw
          (
            split-structure name (field_tags fs) tail w e,
            fields_lem print_number print_struct full_tag (go n) name (field_tags fs) tail
                (at s d out) (bytes_of_fields fs ++ rest) e,
            p (bytes_of_fields fs ++ rest),
            begin_lem print_number print_struct full_tag name (field_tags fs) tail (at s d out) e,
            enter_at (comma_state s) d
                (((out ++ comma_chars s) ++ struct_name name) ++ (123 ∷ 32 ∷ [])),
            pop_fields-field_tags full_tag print_struct fs (length (field_tags fs)) hs
                (omega arith),
            visit-fields fs n seq_begin d
                (((out ++ comma_chars s) ++ struct_name name) ++ (123 ∷ 32 ∷ [])) rest hs
                (omega arith),
            leave_at seq d (
                ((((out ++ comma_chars s) ++ struct_name name) ++ (123 ∷ 32 ∷ []))
                  ++ render_fields print_number fs)
                ++ (32 ∷ 125 ∷ [])),
          )
          (ap (λ o. (at (state_at (pos d)) d o, ok rest))
            (struct_out out (comma_chars s) (struct_name name) (123 ∷ 32 ∷ [])
              (render_fields print_number fs) (32 ∷ 125 ∷ [])))
    visit-value (printed name fields bytes chars) (suc n) s d out rest
          (w, b, (first, t, others, e, _, _, _), p) k =
        let tail : List ℕ = first ++ (39 ∷ (t ++ others)) in
        rw
          (
            split-structure name fields tail w e,
            fields_lem print_number print_struct full_tag (go n) name fields tail (at s d out)
                (bytes ++ rest) e,
            p rest,
          )
          (leaf_out s d out chars rest)

    visit-more :
        (vs : Values) (n d : ℕ) (out rest : List ℕ)
        → FitsAll full_tag print_struct vs
        → height_all vs ≤ n
        → visit_elems (go n) (list_of vs) (at seq (suc d) out) (bytes_of_all vs ++ rest)
          ≡ (at seq (suc d) (out ++ render_more print_number vs), ok rest)
    visit-more nil n d out rest h k = ap (λ o. (at seq (suc d) o, ok rest)) (sym (append-nil out))
    visit-more (cons v vs) n d out rest (h, hs) k =
        rw
          (
            append_assoc (bytes_of v) (bytes_of_all vs) rest,
            visit-value v n seq (suc d) out (bytes_of_all vs ++ rest) h (omega arith),
            after-seq v d,
            visit-more vs n d (out ++ (44 ∷ 32 ∷ render print_number v)) rest hs (omega arith),
          )
          (ap (λ o. (at seq (suc d) o, ok rest))
            (append_assoc out (44 ∷ 32 ∷ render print_number v) (render_more print_number vs)))

    visit-all :
        (vs : Values) (n d : ℕ) (out rest : List ℕ)
        → FitsAll full_tag print_struct vs
        → height_all vs ≤ n
        → visit_elems (go n) (list_of vs) (at seq_begin (suc d) out) (bytes_of_all vs ++ rest)
          ≡ (at (begun vs) (suc d) (out ++ render_all print_number vs), ok rest)
    visit-all nil n d out rest h k =
        ap (λ o. (at seq_begin (suc d) o, ok rest)) (sym (append-nil out))
    visit-all (cons v vs) n d out rest (h, hs) k =
        rw
          (
            append_assoc (bytes_of v) (bytes_of_all vs) rest,
            visit-value v n seq_begin (suc d) out (bytes_of_all vs ++ rest) h (omega arith),
            after-begin v d,
            visit-more vs n d (out ++ render print_number v) rest hs (omega arith),
          )
          (ap (λ o. (at seq (suc d) o, ok rest))
            (append_assoc out (render print_number v) (render_more print_number vs)))

    visit-fields :
        (fs : Fields) (n : ℕ) (s : State) (d : ℕ) (out rest : List ℕ)
        → FitsFields full_tag print_struct fs
        → height_fields fs ≤ n
        → visit_fields (go n) (pairs_of fs) (at s (suc d) out) (bytes_of_fields fs ++ rest)
          ≡ (at seq (suc d) (out ++ (comma_chars s ++ render_fields print_number fs)), ok rest)
    visit-fields (last name v) n s d out rest (_, h) k =
        rw (visit-value v n normal (suc d) ((out ++ comma_chars s) ++ field_chars name) rest h k) (
          ap (λ o. (at seq (suc d) o, ok rest))
            (three_out out (comma_chars s) (field_chars name) (render print_number v)))
    visit-fields (field name v fs) n s d out rest (_, h, hs) k =
        rw
          (
            append_assoc (bytes_of v) (bytes_of_fields fs) rest,
            visit-value v n normal (suc d) ((out ++ comma_chars s) ++ field_chars name)
                (bytes_of_fields fs ++ rest) h (omega arith),
            visit-fields fs n seq d
                (((out ++ comma_chars s) ++ field_chars name) ++ render print_number v) rest hs
                (omega arith),
          )
          (ap (λ o. (at seq (suc d) o, ok rest))
            (bracket_out out (comma_chars s) (field_chars name) (render print_number v)
              (44 ∷ 32 ∷ render_fields print_number fs)))

-- Visiting the bytes of a value by its tag with a new visitor appends what the value prints to the output and
-- leaves the visitor as it was and the range behind the value, for every value that fits the tag and the struct
-- printer and is at most 2048 deep. It fits if its sizes fit their types, its names hold no separators,
-- no struct without fields refers to one around it, the printer
-- takes exactly the structs that are marked as printed, whose first field is neither a tuple nor a struct, and no
-- sequence of more than 32 elements has only elements without bytes, made of empty tuples and structs alone.
pub visit_value-render :
    (print_number : NumberPrinter) (print_struct : StructPrinter)
    → (v : Value) (out rest : List ℕ) → Fits (tag_of v) print_struct v
    → height v ≤ 2048
    → visit_value print_number print_struct (tag_of v) (new out) (bytes_of v ++ rest)
      ≡ (new (out ++ render print_number v), ok rest)
unfolding visit_value new
visit_value-render print_number print_struct v out rest h k =
    visit-value print_number print_struct (tag_of v) v 2048 normal 0 out rest h k
    ∙ ap (λ s. (at s 0 (out ++ render print_number v), ok rest)) (after-normal v)
