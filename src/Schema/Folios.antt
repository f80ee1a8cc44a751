-- ===== src/Schema/Folios.antt =====
-- The guest folio's tables and the property's tax settings (src/database/schema/folio.ts, pms.ts).
use Prim.Native.String.{String}
use travelo.Base.{ℕ, List, Option, Bool}
use travelo.Base.Int.{ℤ}

pub data GstCategory : Type 0 where
  accommodation restaurant saas other : GstCategory

pub data FolioLineKind : Type 0 where
  restaurant spa misc adjustment : FolioLineKind

pub record FolioLine : Type 0 where
  pub id : ℕ
  pub reservation_id : ℕ
  pub property_id : ℕ
  pub kind : FolioLineKind
  pub amount_paise : ℤ
  pub quantity : ℕ
  pub tax_paise : ℤ
  pub tax_rate_bp : ℕ
  pub tax_category : Option GstCategory
  pub tax_exempt : Bool
  pub hsn_code : Option String
  -- `sourceType` and `sourceId` together; a NULL in either is no source.
  pub source : Option (ℕ × ℕ)
  pub posted_by : Option ℕ
  pub voided : Bool

pub data PaymentDirection : Type 0 where
  payment refund : PaymentDirection

pub data FolioPaymentMethod : Type 0 where
  cash card upi bank online corporate : FolioPaymentMethod

pub record FolioPayment : Type 0 where
  pub id : ℕ
  pub reservation_id : ℕ
  pub property_id : ℕ
  pub direction : PaymentDirection
  pub method : FolioPaymentMethod
  pub amount_paise : ℕ
  pub collected_by : Option ℕ
  pub idempotency_key : Option ℕ

pub data FolioEventType : Type 0 where
  discount_applied line_voided tax_exempted tax_exemption_removed : FolioEventType

pub record FolioEvent : Type 0 where
  pub reservation_id : ℕ
  pub property_id : ℕ
  pub type : FolioEventType
  pub actor_staff_id : Option ℕ
  pub line_id : ℕ

pub data TaxCalculation : Type 0 where
  percent fixed : TaxCalculation

pub data TaxBasis : Type 0 where
  per_night per_guest per_stay : TaxBasis

pub data TaxAppliesTo : Type 0 where
  room restaurant spa addon all : TaxAppliesTo

pub record PropertyTax : Type 0 where
  pub property_id : ℕ
  pub calculation : TaxCalculation
  pub value : ℕ
  pub basis : TaxBasis
  pub applies_to : TaxAppliesTo
  pub is_active : Bool
  pub deleted : Bool

pub record PropertySettings : Type 0 where
  pub property_id : ℕ
  pub hold_expiry_minutes : Option ℕ
  pub restaurant_service_charge_bp : ℕ
  pub gst_state_code : Option (List ℕ)
