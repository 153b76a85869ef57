-- ===== src/Canvas.antt =====
-- The investigation canvas of web/src/components/investigation-canvas: the quadtree that it hits
-- points with, the layout of its nodes, and its selection.
pub mod Quadtree
pub mod Points
pub mod Insertion
pub mod Query
pub mod Nearest
pub mod Layout
pub mod Grid
pub mod Selection
pub mod Pressing
