-- ===== src/Folio/Charges.antt =====
-- src/modules/folio/folio.service.ts: the charge lines of a stay, posted, discounted, voided and
-- exempted, with the log of them. The description and note columns are not kept.
use Prim.Native.String.{String}
use travelo.Base.{
  ℕ, ◌+◌, ◌*◌, Bool, true, false, not, ◌&&◌, ◌||◌, List, [], ◌∷◌, ◌++◌, Option, none, some, select,
  update_row, ◌==◌, is_some, or_else, if◌then◌else◌, codes_eq,
}
use travelo.Base.Int.{ℤ, pos, ◌-ℤ◌, pos_part, neg_part}
use travelo.Schema.{Db, FolioLine, FolioLineKind, FolioEventType, GstCategory, PropertySettings}
use travelo.Billing.Gst.{compute_gst_for_category}

pub record PostCharge : Type 0 where
  pub reservation_id : ℕ
  pub property_id : ℕ
  pub kind : FolioLineKind
  pub amount_paise : ℤ
  pub source : Option (ℕ × ℕ)
  pub posted_by : Option ℕ
  pub quantity : Option ℕ
  pub tax_category : Option GstCategory
  pub tax_exempt : Bool
  pub hsn_code : Option String

unfoldable pub category_for : FolioLineKind → GstCategory
category_for FolioLineKind.restaurant = GstCategory.restaurant
category_for _ = GstCategory.other

take_two : List ℕ → List ℕ
take_two (a ∷ b ∷ cs) = a ∷ b ∷ []
take_two cs = cs

state_of : Option PropertySettings → Option (List ℕ)
state_of none = none
state_of (some s) = s.gst_state_code

-- Two registrations: with none (or an empty one) on either side the supply is within the state.
same_state : Option (List ℕ) → Option (List ℕ) → Bool
unfolding take_two
same_state none code = true
same_state (some []) code = true
same_state (some (c ∷ cs)) none = true
same_state (some (c ∷ cs)) (some []) = true
same_state (some (c ∷ cs)) (some (d ∷ ds)) = codes_eq (take_two (c ∷ cs)) (d ∷ ds)

-- `intraStateFor` a property and a guest's GSTIN.
unfoldable pub intra_state_of : Db → ℕ → Option (List ℕ) → Bool
unfolding same_state state_of
intra_state_of db property_id gstin =
    same_state gstin (state_of (select (λ s. s.property_id == property_id) db.settings))

-- `intraStateFor` a reservation's id.
unfoldable pub intra_state_for : Db → ℕ → Bool
intra_state_for db reservation_id = elim (select (λ r. r.id == reservation_id) db.reservations) [
  | none ↦ true
  | some r ↦ intra_state_of db r.property_id r.company_gstin
]

abbrev pub same_source : Option (ℕ × ℕ) → Option (ℕ × ℕ) → Bool
same_source none b = false
same_source (some a) none = false
same_source (some a) (some b) = (a.0 == b.0) && (a.1 == b.1)

-- `findLineBySource`; with no source there is none.
unfoldable pub find_line_by_source : Db → Option (ℕ × ℕ) → Option FolioLine
find_line_by_source db source = select (λ l. same_source source l.source) db.folio_lines

abbrev is_adjustment : FolioLineKind → Bool
is_adjustment FolioLineKind.adjustment = true
is_adjustment _ = false

-- The line that `postCharge` inserts, its tax decided now.
unfoldable pub new_line : Db → PostCharge → ℕ → FolioLine
new_line db input id =
    let category = or_else input.tax_category (category_for input.kind) in
    let exempt = input.tax_exempt || is_adjustment input.kind in
    let gst =
      compute_gst_for_category category input.amount_paise none
        (intra_state_for db input.reservation_id) in
    record {
      id = id;
      reservation_id = input.reservation_id;
      property_id = input.property_id;
      kind = input.kind;
      amount_paise = input.amount_paise;
      quantity = or_else input.quantity 1;
      tax_paise = if exempt then pos 0 else gst.breakdown.tax_paise;
      tax_rate_bp = if exempt then 0 else gst.rate_percent * 100;
      tax_category = some category;
      tax_exempt = exempt;
      hsn_code = if is_some input.hsn_code || exempt then input.hsn_code else some gst.hsn_code;
      source = input.source;
      posted_by = input.posted_by;
      voided = false;
    }

-- `postCharge`: the database and the line, new or found.
unfoldable pub post_charge : Db → PostCharge → ℕ → Db × FolioLine
unfolding new_line find_line_by_source
post_charge db input id = elim (find_line_by_source db input.source) [
  | some line ↦ (db, line)
  | none ↦ (
    record db { folio_lines = db.folio_lines ++ new_line db input id ∷ [] },
    new_line db input id,
  )
]

unfoldable pub log_event : Db → ℕ → ℕ → FolioEventType → Option ℕ → ℕ → Db
log_event db reservation_id property_id type actor line_id = record db {
  folio_events =
      db.folio_events
      ++ record {
        reservation_id = reservation_id;
        property_id = property_id;
        type = type;
        actor_staff_id = actor;
        line_id = line_id;
      }
        ∷ [];
}

-- `applyDiscount`: a negative, exempt ADJUSTMENT line.
unfoldable pub apply_discount : Db → ℕ → ℕ → ℤ → Option ℕ → ℕ → Db × FolioLine
unfolding log_event
apply_discount db reservation_id property_id amount actor id =
    let (posted, line) =
      post_charge db
        (record {
          reservation_id = reservation_id;
          property_id = property_id;
          kind = FolioLineKind.adjustment;
          amount_paise = pos 0 -ℤ pos (pos_part amount + neg_part amount);
          source = none;
          posted_by = actor;
          quantity = none;
          tax_category = none;
          tax_exempt = true;
          hsn_code = none;
        })
        id in
    (
      log_event posted reservation_id property_id FolioEventType.discount_applied actor line.id,
      line,
    )

unfoldable pub is_live_line : ℕ → ℕ → FolioLine → Bool
is_live_line line_id reservation_id l =
    l.id == line_id && l.reservation_id == reservation_id && not l.voided

unfoldable pub void_where : ℕ → ℕ → List FolioLine → List FolioLine
unfolding is_live_line
void_where line_id reservation_id [] = []
void_where line_id reservation_id (l ∷ ls) =
    (if is_live_line line_id reservation_id l then record l { voided = true } else l)
    ∷ void_where line_id reservation_id ls

-- `voidLine`: the line that was voided, if one was live.
unfoldable pub void_line : Db → ℕ → ℕ → ℕ → Option ℕ → Db × Option FolioLine
unfolding void_where log_event is_live_line
void_line db reservation_id property_id line_id actor =
    elim (select (is_live_line line_id reservation_id) db.folio_lines) [
      | none ↦ (db, none)
      | some l ↦ (
        log_event (record db { folio_lines = void_where line_id reservation_id db.folio_lines })
            reservation_id property_id FolioEventType.line_voided actor l.id,
        some (record l { voided = true }),
      )
    ]

-- `setLineTaxExempt`
unfoldable pub set_line_tax_exempt : Db → ℕ → ℕ → ℕ → Bool → Option ℕ → Option Db
unfolding log_event
set_line_tax_exempt db reservation_id property_id line_id exempt actor =
    elim (select (λ l. l.id == line_id && l.reservation_id == reservation_id) db.folio_lines) [
      | none ↦ none
      | some line ↦
          let gst =
            compute_gst_for_category (or_else line.tax_category (category_for line.kind))
              line.amount_paise none (intra_state_for db reservation_id) in
          let patch = λ (l : FolioLine). record l {
            tax_exempt = exempt;
            tax_paise = if exempt then pos 0 else gst.breakdown.tax_paise;
            tax_rate_bp = if exempt then 0 else gst.rate_percent * 100;
          } in
          some (
            log_event
              (record db { folio_lines = update_row (λ l. l.id) line.id patch db.folio_lines })
              reservation_id property_id
              (if exempt then FolioEventType.tax_exempted else FolioEventType.tax_exemption_removed)
              actor line.id)
    ]
