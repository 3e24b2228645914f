-- ===== src/Image.antt =====
-- src/tryops/simple_image.py: RGB images, and a codec for PNG files.
pub mod Bytes
pub mod Filter
pub mod Standard
pub mod Inverse
pub mod Png
pub mod Stream
pub mod Codec
pub mod Resize
pub mod Overlay
pub mod Splice
pub mod Patch
pub mod Overlaid
mod Tests
