-- ===== src/Gf2/Tests.antt =====
-- The theorems on polynomials at concrete inputs.
use gopar.Common.{◌≡◌, ◌%◌, ◌^◌, arith, some}
use gopar.Gf2.Poly64.{QuotRem, times, div}
use gopar.Gf2.Poly64.Product.{product, times-product}
use gopar.Gf2.Poly64.Quotient.{IsQuotRem, div-IsQuotRem}

times-product_example : times 0x1234 0x11 ≡ product 64 0x1234 0x11 % 2 ^ 64
times-product_example = times-product 0x1234 0x11 (omega arith) (omega arith)

div-IsQuotRem_example : (d : QuotRem) × (div 0x1ffff 0x1100b ≡ some d) × IsQuotRem 0x1ffff 0x1100b d
div-IsQuotRem_example = div-IsQuotRem 0x1ffff 0x1100b (omega arith) (omega arith) (omega arith)
