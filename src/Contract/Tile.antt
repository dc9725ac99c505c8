-- ===== src/Contract/Tile.antt =====
-- What one tile of `lower` computes (LowerContractionToRISCVIMEVMADOTPattern.cpp).
pub mod Step
pub mod Loop
pub mod Rows
