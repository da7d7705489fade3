-- ===== src/Errors.antt =====
-- The exceptions of src/seat/errors/seat-domain.error.ts with the metadata that they carry, those
-- that the services throw as plain errors, and a write that the database refuses.
use seat_service.Common.{ℕ, Option, String}

pub data Entity : Type 0 where
  section table layout_version : Entity

pub data TokenFault : Type 0 where
  invalid_token assignment_not_found : TokenFault

pub data Error : Type 0 where
  seat_not_found : Option ℕ → Error
  -- the event, and the seat if one was selected
  seat_unavailable : ℕ → Option ℕ → Error
  seat_holder_conflict : Error
  seat_assignment_not_found : ℕ → ℕ → Error
  entity_not_found : Entity → Option ℕ → Error
  seating_conflict : Entity → String → Error
  -- the seat, the event asked for, the event of the seat
  seat_event_mismatch : ℕ → ℕ → ℕ → Error
  verification_token : TokenFault → Error
  -- `Error('Verified UUID tenant context is required for analytics facts')`
  tenant_required : Error
  -- `AnalyticsDomainFactSchema.parse` throws
  fact_rejected : Error
  duplicate_geometry_id invalid_geometry : Error
  -- a query that the database refuses: a unique index, a missing row of an `update`
  write_refused : Error
