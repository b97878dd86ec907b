-- ===== src/Serializer.antt =====
-- shared/Serializer.cpp and shared/Serializer.h, in layers: the buffer and fixed-width values,
-- variable-length values, tagged lists, and the reading position.
pub mod Buffer
pub mod Vl
pub mod Tagged
pub mod Iterator
