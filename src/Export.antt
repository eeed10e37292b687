-- ===== src/Export.antt =====
-- Where the pages of a Markdown export go: packages/exporters/src/paths.ts.
pub mod Names
