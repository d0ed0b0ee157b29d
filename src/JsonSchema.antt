-- ===== src/JsonSchema.antt =====
-- The generator of TypeScript types: packages/jsonschema-to-typescript/src/generate.ts.
pub mod Order
pub mod Types
pub mod Emit
mod Tests
